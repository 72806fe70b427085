-- ===== src/Domain/UrlPolicy/Signatures.antt =====
-- Which query pairs make a URL a signed one, src/domain/url_policy.rs.
use werrss.Common.{
  ◌≡◌, refl, Bool, true, ◌&&◌, ◌||◌, List, [], ◌∷◌, ◌++◌, Text, codes, text_eq, arith,
}
use werrss.Domain.UrlPolicy.{
  Url, to_ascii_lowercase, any, has, is_download_token, has_provider_signature,
}

-- `a` implies `b`.
record Leq (a b : Bool) : Type 0 where
  implies : a ≡ true → b ≡ true

Leq-and : {a b c d : Bool} → Leq a c → Leq b d → Leq (a && b) (c && d)
Leq-and h k = record { implies = λ e. ground (arith, h.implies, k.implies) }

Leq-or : {a b c d : Bool} → Leq a c → Leq b d → Leq (a || b) (c || d)
Leq-or h k = record { implies = λ e. ground (arith, h.implies, k.implies) }

any-append {ℓ} :
    {A : Type ℓ} (p : A → Bool) (xs ys : List A) → any p (xs ++ ys) ≡ (any p xs || any p ys)
unfolding any
any-append p [] ys = refl
any-append p (x ∷ xs) ys = rw (any-append p xs ys, ◌||◌) (ground arith)

any_more {ℓ} :
    {A : Type ℓ} (p : A → Bool) (first extra last : List A)
    → Leq (any p (first ++ last)) (any p (first ++ (extra ++ last)))
any_more p first extra last = record {
  implies = λ e.
      ground (
        arith,
        any-append p first last,
        any-append p first (extra ++ last),
        any-append p extra last,
      );
}

-- The URL with other query pairs.
abbrev pub with_pairs : Url → List (Text × Text) → Url
with_pairs url pairs = record url { query_pairs = pairs }

-- A signed URL stays signed whatever query pairs are added to it, in any place.
pub has_provider_signature_more :
    (url : Url) (first extra last : List (Text × Text))
    → has_provider_signature (with_pairs url (first ++ last)) ≡ true
    → has_provider_signature (with_pairs url (first ++ (extra ++ last))) ≡ true
unfolding has_provider_signature has
has_provider_signature_more url first extra last h =
    let more =
      λ (n : Text). any_more (λ pair. text_eq (to_ascii_lowercase pair.0) n) first extra last in
    ((Leq-or
        (Leq-or
          (Leq-or
            (Leq-or
              (Leq-or
                (Leq-or
                  (Leq-or
                    (Leq-or
                      (Leq-or
                        (Leq-or (more (codes "x-amz-signature")) (more (codes "x-goog-signature")))
                        (Leq-and
                          (Leq-and (more (codes "googleaccessid")) (more (codes "signature")))
                          (more (codes "expires"))))
                      (Leq-and (Leq-and (more (codes "awsaccesskeyid")) (more (codes "signature")))
                        (more (codes "expires"))))
                    (Leq-and (Leq-and (more (codes "key-pair-id")) (more (codes "signature")))
                      (Leq-or (more (codes "expires")) (more (codes "policy")))))
                  (Leq-and (Leq-and (more (codes "sig")) (more (codes "se"))) (more (codes "sv"))))
                (Leq-and (more (codes "e")) (any_more is_download_token first extra last)))
              (Leq-and (Leq-and (more (codes "ossaccesskeyid")) (more (codes "signature")))
                (more (codes "expires"))))
            (Leq-and (Leq-and (more (codes "q-signature")) (more (codes "q-ak")))
              (more (codes "q-sign-algorithm"))))
          (Leq-and (Leq-and (more (codes "sign")) (more (codes "key-time")))
            (more (codes "x-cos-security-token"))))
        (more (codes "hdnts")))).implies
      h
