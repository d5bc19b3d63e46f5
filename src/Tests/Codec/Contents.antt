-- ===== src/Tests/Codec/Contents.antt =====
-- A codec for the contents of a WAL file, in the place of `bitcode`: it shows that an encoder and a
-- decoder can invert each other on every content.
use iedb.Base.{
  ℕ, String, ◌≡◌, refl, sym, ◌∙◌, ap, Bool, Option, none, some, List, [], ℤ, pos, negsuc, ◌⊎◌, inl,
  inr, ◌<◌, ◌^◌,
}
use mathlib.Core.List.{append-nil}
use iedb.Chunk.{FieldValue, Row}
use iedb.Wal.{WriteBatch, WalOp, write, noop, WalContents}
use iedb.Wal.Serialize
use iedb.Wal.Serialize.Laws.{deserialize-serialize}
use iedb.Wal.Manager.Replay.{ReadsBack}
use iedb.Tests.Codec.{
  Codec, via, sum_codec, pair_codec, list_codec, nat_codec, unit_codec, bool_codec, string_codec,
}

abbrev of_int : ℤ → ℕ ⊎ ℕ
of_int (pos n) = inl n
of_int (negsuc n) = inr n

abbrev to_int : ℕ ⊎ ℕ → ℤ
to_int (inl n) = pos n
to_int (inr n) = negsuc n

to_int-of_int : (z : ℤ) → to_int (of_int z) ≡ z
to_int-of_int (pos n) = refl
to_int-of_int (negsuc n) = refl

abbrev int_codec : Codec ℤ
int_codec = via of_int to_int to_int-of_int (sum_codec nat_codec nat_codec)

module _ {A : Type 0} where
  abbrev of_option : Option A → Unit {0} ⊎ A
  of_option none = inl tt
  of_option (some a) = inr a

  abbrev to_option : Unit {0} ⊎ A → Option A
  to_option (inl _) = none
  to_option (inr a) = some a

  to_option-of_option : (o : Option A) → to_option (of_option o) ≡ o
  to_option-of_option none = refl
  to_option-of_option (some a) = refl

  abbrev option_codec : Codec A → Codec (Option A)
  option_codec ca = via of_option to_option to_option-of_option (sum_codec unit_codec ca)

abbrev of_value : FieldValue → ℤ ⊎ (ℕ ⊎ (ℕ ⊎ (Bool ⊎ String)))
of_value (FieldValue.i64 v) = inl v
of_value (FieldValue.f64 v) = inr (inl v)
of_value (FieldValue.u64 v) = inr (inr (inl v))
of_value (FieldValue.bool v) = inr (inr (inr (inl v)))
of_value (FieldValue.string v) = inr (inr (inr (inr v)))

abbrev to_value : ℤ ⊎ (ℕ ⊎ (ℕ ⊎ (Bool ⊎ String))) → FieldValue
to_value (inl v) = FieldValue.i64 v
to_value (inr (inl v)) = FieldValue.f64 v
to_value (inr (inr (inl v))) = FieldValue.u64 v
to_value (inr (inr (inr (inl v)))) = FieldValue.bool v
to_value (inr (inr (inr (inr v)))) = FieldValue.string v

to_value-of_value : (v : FieldValue) → to_value (of_value v) ≡ v
to_value-of_value (FieldValue.i64 v) = refl
to_value-of_value (FieldValue.f64 v) = refl
to_value-of_value (FieldValue.u64 v) = refl
to_value-of_value (FieldValue.bool v) = refl
to_value-of_value (FieldValue.string v) = refl

abbrev value_codec : Codec FieldValue
value_codec = via of_value to_value to_value-of_value (
    sum_codec int_codec
      (sum_codec nat_codec (sum_codec nat_codec (sum_codec bool_codec string_codec))))

abbrev row_codec : Codec Row
row_codec =
    via (λ r. (r.time, (r.tag_values, r.field_values)))
      (λ p. record { time = p.0; tag_values = p.1.0; field_values = p.1.1 }) (λ r. refl)
      (pair_codec int_codec
        (pair_codec (list_codec string_codec) (list_codec (option_codec value_codec))))

abbrev batch_codec : Codec WriteBatch
batch_codec =
    via (λ b. (b.db_name, (b.table_name, (b.chunk_time, (b.field_names, (b.tag_keys, b.rows))))))
      (λ p. record {
        db_name = p.0;
        table_name = p.1.0;
        chunk_time = p.1.1.0;
        field_names = p.1.1.1.0;
        tag_keys = p.1.1.1.1.0;
        rows = p.1.1.1.1.1;
      })
      (λ b. refl)
      (pair_codec string_codec (
        pair_codec string_codec (
          pair_codec int_codec (
            pair_codec (list_codec string_codec)
              (pair_codec (list_codec string_codec) (list_codec row_codec))))))

abbrev of_op : WalOp → Unit {0} ⊎ WriteBatch
of_op noop = inl tt
of_op (write batch) = inr batch

abbrev to_op : Unit {0} ⊎ WriteBatch → WalOp
to_op (inl _) = noop
to_op (inr batch) = write batch

to_op-of_op : (op : WalOp) → to_op (of_op op) ≡ op
to_op-of_op noop = refl
to_op-of_op (write batch) = refl

abbrev op_codec : Codec WalOp
op_codec = via of_op to_op to_op-of_op (sum_codec unit_codec batch_codec)

abbrev contents_codec : Codec WalContents
contents_codec =
    via (λ c. (c.wal_file_number, (c.ops, c.persist_timestamp_ms)))
      (λ p. record { wal_file_number = p.0; ops = p.1.0; persist_timestamp_ms = p.1.1 }) (λ c. refl)
      (pair_codec nat_codec (pair_codec (list_codec op_codec) int_codec))

abbrev decoded : Option (WalContents × List ℕ) → Serialize.Result WalContents
decoded none = Serialize.err (Serialize.decode_error "no contents")
decoded (some (c, _)) = Serialize.ok c

pub encode : WalContents → List ℕ
encode c = contents_codec.enc c

pub decode : List ℕ → Serialize.Result WalContents
decode l = decoded (contents_codec.dec l)

decode-encode : (c : WalContents) → decode (encode c) ≡ Serialize.ok c
unfolding encode decode
decode-encode c =
    ap (λ l. decode l) (sym (append-nil (encode c))) ∙ ap decoded (contents_codec.law c [])

pub contents_read_back :
    (crc32 : List ℕ → ℕ) (fits : (p : List ℕ) → crc32 p < 2 ^ 32) (c : WalContents)
    → ReadsBack encode decode crc32 c
contents_read_back crc32 fits c = deserialize-serialize encode decode crc32 fits c (decode-encode c)
