-- ===== src/Tests/Json.antt =====
-- A toy reader and writer of envelope metadata: each text behind its length.
use comb.Prelude.{ℕ, ◌≡◌, refl}
use comb.Prelude.{Option, none, some, List, [], ◌∷◌, ◌++◌}
use comb.Prelude.{◌==◌, if◌then◌else◌, length, take, drop}
use comb.Prelude.{take-append_length, drop-append_length}
use comb.Prelude.Str.{Str, str, eqs}
use comb.Core.Envelope.{EnvelopeMeta, ObjectKind, blob, manifest, journal_entry, MetaJson, as_str}
use comb.Core.Envelope.Bounded.{meta_string}
use comb.Core.Envelope.Decode.{ReadsBack}
use comb.Core.Envelope.Limited.{TakesFields, WritesObject, HasFields}

pub data Toy : Type 0 where
  object : EnvelopeMeta → Toy
  text : Str → Toy

kind_code : ObjectKind → ℕ
kind_code blob = 0
kind_code manifest = 1
kind_code journal_entry = 2

kind_of : ℕ → ObjectKind
kind_of n = if n == 0 then blob else if n == 1 then manifest else journal_entry

kind_of-kind_code : (k : ObjectKind) → kind_of (kind_code k) ≡ k
unfolding kind_of kind_code
kind_of-kind_code blob = refl
kind_of-kind_code manifest = refl
kind_of-kind_code journal_entry = refl

unfoldable pub write_text : Str → List ℕ → List ℕ
write_text s rest = length s ∷ (s ++ rest)

write_meta : EnvelopeMeta → List ℕ
write_meta m =
    kind_code m.kind
    ∷ m.plaintext_bytes
    ∷ write_text m.schema (
        write_text m.tenant (
          write_text m.digest.hex
            (write_text m.compression (write_text m.encryption (write_text m.created_at [])))))

-- The text in front, and what follows it.
unfoldable pub read_text : List ℕ → Str × List ℕ
read_text [] = ([], [])
read_text (n ∷ rest) = (take n rest, drop n rest)

pub read_text-write_text : (s : Str) (rest : List ℕ) → read_text (write_text s rest) ≡ (s, rest)
unfolding read_text write_text
read_text-write_text s rest = rw (take-append_length s rest, drop-append_length s rest)

read_fields : ℕ → ℕ → List ℕ → EnvelopeMeta
read_fields k n l0 =
    let (schema, l1) = read_text l0 in
    let (tenant, l2) = read_text l1 in
    let (hex, l3) = read_text l2 in
    let (compression, l4) = read_text l3 in
    let (encryption, l5) = read_text l4 in
    let (created_at, l6) = read_text l5 in
    record {
      schema = schema;
      tenant = tenant;
      kind = kind_of k;
      digest = record { hex = hex };
      plaintext_bytes = n;
      compression = compression;
      encryption = encryption;
      created_at = created_at;
    }

read_meta : List ℕ → Option EnvelopeMeta
read_meta (k ∷ n ∷ l) = some (read_fields k n l)
read_meta _ = none

read-write : (m : EnvelopeMeta) → read_meta (write_meta m) ≡ some m
unfolding read_meta write_meta read_fields
read-write m = simp (read_text-write_text, kind_of-kind_code)

toy_get : EnvelopeMeta → Str → Option Toy
toy_get m name =
    if eqs name (str "compression")
    then some (text m.compression)
    else if eqs name (str "encryption")
    then some (text m.encryption)
    else if eqs name (str "tenant")
    then some (text m.tenant)
    else if eqs name (str "kind")
    then some (text (as_str m.kind))
    else if eqs name (str "schema")
    then some (text m.schema)
    else none

toy_text : Toy → Option Str
toy_text (object m) = none
toy_text (text s) = some s

toy_object : Toy → Option EnvelopeMeta
toy_object (object m) = some m
toy_object (text s) = none

value_of : List ℕ → Option Toy
value_of bytes = elim (read_meta bytes) [ none ↦ none | some m ↦ some (object m) ]

unfoldable pub json : MetaJson
unfolding toy_get toy_text toy_object value_of read_meta write_meta read_fields read_text write_text
    kind_of kind_code
json = record {
  Value = Toy;
  Object = EnvelopeMeta;
  to_vec = λ m. some (write_meta m);
  from_slice = read_meta;
  value_from_slice = value_of;
  from_value = toy_object;
  as_object = toy_object;
  get = toy_get;
  as_string = toy_text;
}

reads_written :
    (m : EnvelopeMeta) (bytes : List ℕ)
    → some (write_meta m) ≡ some bytes
    → read_meta bytes ≡ some m
reads_written m bytes e = cc (read-write m)

pub json_reads_back : ReadsBack json
unfolding json
json_reads_back = record {
  from_slice-to_vec = λ m bytes canonical small e. reads_written m bytes e;
}

-- The texts of the object that a struct is.
same_object : (o m : EnvelopeMeta) → o ≡ m → unfold json in HasFields json o m
unfolding json meta_string eqs
same_object o m e = rw e (refl, refl, refl, refl, refl)

pub json_takes_fields : TakesFields json
unfolding TakesFields json
json_takes_fields v m o s e f =
    let (a, b, c, d, g) = same_object o m (cc) in
    ((λ h. cc (a, h)), (λ h. cc (b, h)), (λ h. cc (c, h)), (λ h. cc (d, h)), (λ h. cc (g, h)))

value_written :
    (m : EnvelopeMeta) (bytes : List ℕ)
    → read_meta bytes ≡ some m
    → value_of bytes ≡ some (object m)
unfolding value_of
value_written m bytes e = rw (e, value_of) refl

pub json_writes_object : WritesObject json
unfolding WritesObject json toy_object
json_writes_object m bytes canonical small e =
    (object m, m, value_written m bytes (reads_written m bytes e), refl, refl, same_object m m refl)
