-- ===== src/Wal/Serialize/Laws.antt =====
-- serialize.rs: what a WAL file that was written reads back as, and which files are accepted.
use iedb.Base.{
  ℕ, ◌^◌, ◌≤◌, ◌<◌, ◌≡◌, ◌≢◌, refl, ◌∙◌, List, ◌++◌, length, take, drop, arith, ◌==◌, ==_iff,
  if◌then◌else◌, eq_bytes, eq_bytes→eq,
}
use iedb.Wal.{WalContents}
use iedb.Wal.Serialize.{
  file_type_identifier, crc_mismatch, Result, ok, err, to_le_bytes, from_le_bytes,
  serialize_to_file, deserialize_from_file,
}

from_le-to_le : (n : ℕ) → n < 2 ^ 32 → from_le_bytes (to_le_bytes n) ≡ n
unfolding from_le_bytes to_le_bytes
from_le-to_le n h = omega arith

module _ (encode : WalContents → List ℕ) (decode : List ℕ → Result WalContents) (crc32 : List ℕ → ℕ)
    (crc32_fits : (p : List ℕ) → crc32 p < 2 ^ 32) where
  -- A file with the header of one payload and the bytes of any other.
  framed :
      (n : ℕ) (payload : List ℕ)
      → n < 2 ^ 32
      → deserialize_from_file encode decode crc32
          (file_type_identifier ++ (to_le_bytes n ++ payload))
        ≡ (if n == crc32 payload then decode payload else err (crc_mismatch n (crc32 payload)))
  unfolding deserialize_from_file eq_bytes to_le_bytes
  framed n payload h = ground (arith, from_le-to_le n h)

  -- A written file reads back as what was written, if the decoder inverts the encoder there and the
  -- checksum has 32 bits.
  pub deserialize-serialize :
      (c : WalContents)
      → decode (encode c) ≡ ok c
      → deserialize_from_file encode decode crc32 (serialize_to_file encode decode crc32 c) ≡ ok c
  unfolding serialize_to_file
  deserialize-serialize c inverse =
      framed (crc32 (encode c)) (encode c) (crc32_fits (encode c))
      ∙ rw ((==_iff (crc32 (encode c)) (crc32 (encode c))).1 refl) inverse

  -- If the payload of a written file is replaced by bytes of another checksum, whatever their number,
  -- reading reports the mismatch with both checksums, which have 32 bits.
  pub corrupted_payload :
      (c : WalContents) (payload : List ℕ)
      → crc32 payload ≢ crc32 (encode c)
      → deserialize_from_file encode decode crc32
          (take 12 (serialize_to_file encode decode crc32 c) ++ payload)
        ≡ err (crc_mismatch (crc32 (encode c)) (crc32 payload))
  unfolding serialize_to_file to_le_bytes
  corrupted_payload c payload h =
      framed (crc32 (encode c)) payload (crc32_fits (encode c)) ∙ ground arith

module _ (encode : WalContents → List ℕ) (decode : List ℕ → Result WalContents)
    (crc32 : List ℕ → ℕ) where
  -- A file is accepted only with the identifier, a matching checksum and a payload that decodes: its
  -- content is then the decoded payload.
  pub accepted :
      (file : List ℕ) (c : WalContents)
      → deserialize_from_file encode decode crc32 file ≡ ok c
      → (12 ≤ length file)
        × (take 8 file ≡ file_type_identifier)
        × (from_le_bytes (take 4 (drop 8 file)) ≡ crc32 (drop 12 file))
        × (decode (drop 12 file) ≡ ok c)
  unfolding deserialize_from_file
  accepted file c e = ground (arith, eq_bytes→eq (take 8 file) file_type_identifier)
