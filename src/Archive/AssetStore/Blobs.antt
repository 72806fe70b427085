-- ===== src/Archive/AssetStore/Blobs.antt =====
-- What the values exchanged with a blob backend say of the bytes, src/archive/asset_store.rs.
use werrss.Common.{
  ℕ, Bool, true, false, not, none, some, List, length, Text, text_eq_iff, is_blank, utf8_len,
  if◌then◌else◌, ok, ◌≡◌, refl, ap, ◌∙◌, arith,
}
use werrss.Domain.UrlPolicy.{any}
use werrss.Archive.AssetStore.{
  AssetBlob, new_blob, AssetBlobMetadata, new_blob_metadata, with_stored_byte_size, is_hex_digit,
}

describe :
    (checksum media_type : Text) (size : ℕ) (present : Bool)
    → is_blank media_type ≡ false
    → utf8_len checksum ≡ 64
    → any (λ c. not (is_hex_digit c)) checksum ≡ false
    → new_blob_metadata checksum media_type size present
      ≡ ok (record {
        checksum = checksum;
        media_type = media_type;
        byte_size = size;
        present = present;
        stored_byte_size = if present then some size else none;
      })
unfolding new_blob_metadata
describe checksum media_type size present black sized hex = rw (black, sized, hex) refl

module _ (digest : List ℕ → Text) where
  -- The checksum of a blob is the digest of its bytes.
  pub new_blob-digest :
      (bytes : List ℕ) (media_type checksum : Text) (blob : AssetBlob)
      → new_blob digest bytes media_type checksum ≡ ok blob
      → (blob.checksum ≡ digest blob.bytes) × (is_blank blob.media_type ≡ false)
  unfolding new_blob
  new_blob-digest bytes media_type checksum blob h =
      ground (arith, text_eq_iff checksum (digest bytes))

  -- Where the digest writes 64 hexadecimal digits, a backend can describe every blob.
  pub new_blob_metadata-new_blob :
      ((bytes : List ℕ) → utf8_len (digest bytes) ≡ 64)
      → ((bytes : List ℕ) → any (λ c. not (is_hex_digit c)) (digest bytes) ≡ false)
      → (bytes : List ℕ) (media_type checksum : Text) (blob : AssetBlob) (present : Bool)
      → new_blob digest bytes media_type checksum ≡ ok blob
      → new_blob_metadata blob.checksum blob.media_type (length blob.bytes) present
        ≡ ok (record {
          checksum = blob.checksum;
          media_type = blob.media_type;
          byte_size = length blob.bytes;
          present = present;
          stored_byte_size = if present then some (length blob.bytes) else none;
        })
  new_blob_metadata-new_blob sized hex bytes media_type checksum blob present h =
      let (same, black) = new_blob-digest bytes media_type checksum blob h in
      describe blob.checksum blob.media_type (length blob.bytes) present black
        (ap utf8_len same ∙ sized blob.bytes)
        (ap (any (λ c. not (is_hex_digit c))) same ∙ hex blob.bytes)

-- The last size that the backend reports decides.
pub with_stored_byte_size_twice :
    (metadata : AssetBlobMetadata) (first last : ℕ)
    → with_stored_byte_size (with_stored_byte_size metadata first) last
      ≡ with_stored_byte_size metadata last
unfolding with_stored_byte_size
with_stored_byte_size_twice metadata first last = refl

-- Reporting the full size of a blob makes it what a backend that holds the blob describes.
pub with_stored_byte_size-new_blob_metadata :
    (checksum media_type : Text) (size : ℕ) (missing held : AssetBlobMetadata)
    → new_blob_metadata checksum media_type size false ≡ ok missing
    → new_blob_metadata checksum media_type size true ≡ ok held
    → with_stored_byte_size missing size ≡ held
unfolding new_blob_metadata with_stored_byte_size
with_stored_byte_size-new_blob_metadata checksum media_type size missing held h g = ground arith
