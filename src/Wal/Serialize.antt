-- ===== src/Wal/Serialize.antt =====
-- src/agent/wal/serialize.rs: a WAL file is an identifier, the CRC32 of the payload and the payload.
-- The crates `bitcode` and `crc32fast` are not part of the program: the encoder, the decoder and the
-- checksum are parameters.
pub mod Laws
use iedb.Base.{
  ℕ, zero, suc, ◌+◌, ◌*◌, ◌/◌, ◌%◌, String, List, [], ◌∷◌, ◌++◌, length, take, drop, ltb, ◌==◌,
  if◌then◌else◌, eq_bytes,
}
use iedb.Wal.{WalContents}

-- b"iedb.a01"
abbrev pub file_type_identifier : List ℕ
file_type_identifier = b'i' ∷ b'e' ∷ b'd' ∷ b'b' ∷ b'.' ∷ b'a' ∷ b'0' ∷ b'1' ∷ []

pub data Error : Type 0 where
  too_short : Error
  invalid_identifier : Error
  crc_mismatch : ℕ → ℕ → Error
  decode_error : String → Error

pub data Result {ℓ} (A : Type ℓ) : Type ℓ where
  ok : A → Result A
  err : Error → Result A

unfoldable pub to_le_bytes : ℕ → List ℕ
to_le_bytes n = n % 256 ∷ n / 256 % 256 ∷ n / 65536 % 256 ∷ n / 16777216 % 256 ∷ []

unfoldable pub from_le_bytes : List ℕ → ℕ
from_le_bytes [] = 0
from_le_bytes (b ∷ bs) = b + 256 * from_le_bytes bs

module _ (encode : WalContents → List ℕ) (decode : List ℕ → Result WalContents)
    (crc32 : List ℕ → ℕ) where
  unfoldable pub serialize_to_file : WalContents → List ℕ
  serialize_to_file c =
      let payload = encode c in file_type_identifier ++ (to_le_bytes (crc32 payload) ++ payload)

  unfoldable pub deserialize_from_file : List ℕ → Result WalContents
  deserialize_from_file file =
      let stored_crc = from_le_bytes (take 4 (drop 8 file)) in
      let payload = drop 12 file in
      let actual_crc = crc32 payload in
      if ltb (length file) 12
      then err too_short
      else if eq_bytes (take 8 file) file_type_identifier
      then (if stored_crc == actual_crc
          then decode payload
          else err (crc_mismatch stored_crc actual_crc))
      else err invalid_identifier
