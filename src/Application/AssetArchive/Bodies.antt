-- ===== src/Application/AssetArchive/Bodies.antt =====
-- The bytes that a body gives, src/application/asset_archive_service.rs.
use werrss.Common.{
  ℕ, ◌+◌, ◌-◌, ◌≤◌, ◌<◌, ◌≡◌, inl, inr, Option, none, some, List, [], ◌∷◌, ◌++◌, length,
  length-append, ltb, Bool-cases, arith, subst,
}
use werrss.Application.AssetArchive.Fetching.{
  Chunk, arrives, ends, breaks, hangs, u64_max, saturating_add, read_body,
}

-- A body that was read to its end is not empty and keeps to the limit, and its bytes are counted;
-- a body that was not counts no fewer bytes than before.
abbrev pub Read : ℕ → ℕ → ℕ → Option (List ℕ) → ℕ → Type 0
Read limit before fetched none counted = fetched ≤ counted
Read limit before fetched (some body) counted =
    (0 < length body) × (length body ≤ limit) × (counted + before ≡ fetched + length body)

Read-shift :
    (limit before more fetched : ℕ) (o : Option (List ℕ)) (counted : ℕ)
    → Read limit (before + more) (fetched + more) o counted
    → Read limit before fetched o counted
Read-shift limit before more fetched none counted r = omega arith
Read-shift limit before more fetched (some body) counted (given, small, exact) =
    (given, small, omega arith)

pub read_body-Read :
    (max_time limit : ℕ) (chunks : List Chunk) (bytes : List ℕ) (fetched : ℕ)
    → length bytes ≤ limit
    → fetched + (limit - length bytes) ≤ u64_max
    → let r = read_body max_time limit chunks bytes fetched in
      Read limit (length bytes) fetched r.0 r.1
unfolding read_body
read_body-Read max_time limit [] bytes fetched h k = omega arith
read_body-Read max_time limit (hangs before ∷ chunks) bytes fetched h k = omega arith
read_body-Read max_time limit (breaks before ∷ chunks) bytes fetched h k = omega arith
read_body-Read max_time limit (ends before after ∷ chunks) bytes fetched h k = ground arith
read_body-Read max_time limit (arrives before after chunk ∷ chunks) bytes fetched h k =
    elim (Bool-cases (ltb max_time before)) [
      | inl late ↦ rw late (omega arith)
      | inr early ↦ elim (Bool-cases (ltb max_time after)) [
        | inl late ↦ rw (early, late) (omega arith)
        | inr timely ↦ elim (Bool-cases (ltb (limit - length bytes) (length chunk))) [
          | inl over ↦ rw (early, timely, over) (ground arith)
          | inr fits ↦
              let joined = length-append bytes chunk in
              let exact : saturating_add fetched (length chunk) ≡ fetched + length chunk =
                ground arith in
              let rest =
                read_body-Read max_time limit chunks (bytes ++ chunk) (fetched + length chunk)
                  (ground arith) (ground arith) in
              rw (early, timely, fits, exact)
                (Read-shift limit (length bytes) (length chunk) fetched
                  (read_body max_time limit chunks (bytes ++ chunk) (fetched + length chunk)).0
                  (read_body max_time limit chunks (bytes ++ chunk) (fetched + length chunk)).1
                  (subst
                    (λ n.
                      let r =
                        read_body max_time limit chunks (bytes ++ chunk) (fetched + length chunk) in
                      Read limit n (fetched + length chunk) r.0 r.1)
                    joined rest))
        ]
      ]
    ]
