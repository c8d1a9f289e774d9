-- ===== src/Core/Operation/Material/Framing.antt =====
-- Length-prefixed buffers determine their fields.
use comb.Prelude.{ℕ, ◌+◌, ◌*◌, ◌^◌, ◌<◌, ◌≡◌, refl, sym, ap, ◌∙◌}
use comb.Prelude.{List, [], ◌∷◌, ◌++◌, arith}
use comb.Prelude.{length, get_or, All}
use comb.Prelude.{append-injective}
use comb.Prelude.Str.{Str, str, bytes}
use comb.Core.Operation.Material.{
  Precondition, Material, put_u64, put_bytes, put_all, sort_by_name, put_preconditions,
  domain_buffer, material_buffer,
}
use mathlib.Core.List.{append_assoc, append-nil}

-- A length that a `u64` holds.
abbrev pub Fits {ℓ} : {A : Type ℓ} → List A → Type 0
Fits b = length b < 2 ^ 64

u64_be : ℕ → List ℕ
unfolding put_u64
u64_be n = put_u64 [] n

put_u64-append : (buf : List ℕ) (n : ℕ) → put_u64 buf n ≡ buf ++ u64_be n
unfolding u64_be
put_u64-append buf n = refl

from_be : List ℕ → ℕ
from_be l =
    get_or l 0 0 * 2 ^ 56
    + get_or l 1 0 * 2 ^ 48
    + get_or l 2 0 * 2 ^ 40
    + get_or l 3 0 * 2 ^ 32
    + get_or l 4 0 * 2 ^ 24
    + get_or l 5 0 * 2 ^ 16
    + get_or l 6 0 * 2 ^ 8
    + get_or l 7 0

from_be-u64_be : (n : ℕ) → n < 2 ^ 64 → from_be (u64_be n) ≡ n
unfolding u64_be from_be
from_be-u64_be n h = omega arith

u64_be-injective : (m n : ℕ) → m < 2 ^ 64 → n < 2 ^ 64 → u64_be m ≡ u64_be n → m ≡ n
u64_be-injective m n hm hn e = sym (from_be-u64_be m hm) ∙ ap from_be e ∙ from_be-u64_be n hn

length-u64_be : (n : ℕ) → length (u64_be n) ≡ 8
unfolding u64_be
length-u64_be n = refl

frame : List ℕ → List ℕ
frame b = u64_be (length b) ++ b

frames : List (List ℕ) → List ℕ
frames [] = []
frames (f ∷ fs) = frame f ++ frames fs

put_bytes-append : (buf b : List ℕ) → put_bytes buf b ≡ buf ++ frame b
unfolding put_bytes frame
put_bytes-append buf b = simp (put_u64-append, append_assoc)

put_all-append : (fs : List (List ℕ)) (buf : List ℕ) → put_all buf fs ≡ buf ++ frames fs
unfolding put_all frames
put_all-append [] buf = sym (append-nil buf)
put_all-append (f ∷ fs) buf = simp (put_all-append fs, put_bytes-append, append_assoc)

u64_be-append_injective :
    (m n : ℕ) (s t : List ℕ)
    → m < 2 ^ 64
    → n < 2 ^ 64
    → u64_be m ++ s ≡ u64_be n ++ t
    → (m ≡ n) × (s ≡ t)
u64_be-append_injective m n s t hm hn e =
    let (p, q) =
      append-injective (u64_be m) (u64_be n) s t (length-u64_be m ∙ sym (length-u64_be n)) e in
    (u64_be-injective m n hm hn p, q)

-- A frame says where it ends.
frame-append_injective :
    (a b s t : List ℕ) → Fits a → Fits b → frame a ++ s ≡ frame b ++ t → (a ≡ b) × (s ≡ t)
unfolding frame
frame-append_injective a b s t ha hb e =
    let (l, rest) =
      u64_be-append_injective (length a) (length b) (a ++ s) (b ++ t) ha hb
        (sym (append_assoc _ a s) ∙ e ∙ append_assoc _ b t) in
    append-injective a b s t l rest

frames-append_injective :
    (fs gs : List (List ℕ)) (s t : List ℕ)
    → All Fits fs
    → All Fits gs
    → length fs ≡ length gs
    → frames fs ++ s ≡ frames gs ++ t
    → (fs ≡ gs) × (s ≡ t)
unfolding frames
frames-append_injective [] [] s t hf hg l e = (refl, e)
frames-append_injective [] (g ∷ gs) s t hf hg l e = absurd (omega arith)
frames-append_injective (f ∷ fs) [] s t hf hg l e = absurd (omega arith)
frames-append_injective (f ∷ fs) (g ∷ gs) s t hf hg l e =
    let (p, more) =
      frame-append_injective f g (frames fs ++ s) (frames gs ++ t) hf.0 hg.0
        (sym (append_assoc _ _ s) ∙ e ∙ append_assoc _ _ t) in
    let (q, rest) = frames-append_injective fs gs s t hf.1 hg.1 (omega arith) more in (cc, rest)

domain_buffer-frames :
    (domain : Str) (fields : List (List ℕ))
    → domain_buffer domain fields
      ≡ frame (bytes domain) ++ (u64_be (length fields) ++ (frames fields ++ []))
unfolding domain_buffer
domain_buffer-frames domain fields =
    simp (put_all-append, put_u64-append, put_bytes-append, append_assoc, append-nil)

-- Two calls of `domain_hash`, whose domains, numbers of fields and fields are each shorter than
-- 2 ^ 64, hash the same bytes only if their domains and all their fields agree.
pub domain_buffer-injective :
    (d e : Str) (fs gs : List (List ℕ))
    → Fits (bytes d)
    → Fits (bytes e)
    → Fits fs
    → Fits gs
    → All Fits fs
    → All Fits gs
    → domain_buffer d fs ≡ domain_buffer e gs
    → (bytes d ≡ bytes e) × (fs ≡ gs)
domain_buffer-injective d e fs gs hd he nf ng hf hg same =
    let (p, more) =
      frame-append_injective (bytes d) (bytes e) _ _ hd he
        (sym (domain_buffer-frames d fs) ∙ same ∙ domain_buffer-frames e gs) in
    let (l, rest) = u64_be-append_injective (length fs) (length gs) _ _ nf ng more in
    let (q, done) = frames-append_injective fs gs [] [] hf hg l rest in (p, q)

-- The fields that a list of preconditions contributes: each name, then its value.
abbrev pub precondition_fields : List Precondition → List (List ℕ)
precondition_fields [] = []
precondition_fields ((name, value) ∷ ps) = bytes name ∷ value ∷ precondition_fields ps

put_preconditions-append :
    (ps : List Precondition) (buf : List ℕ)
    → put_preconditions buf ps ≡ buf ++ frames (precondition_fields ps)
unfolding put_preconditions frames
put_preconditions-append [] buf = sym (append-nil buf)
put_preconditions-append ((name, value) ∷ ps) buf =
    simp (put_preconditions-append ps, put_bytes-append, append_assoc)

-- What a material hash is taken of.
abbrev pub header_fields : Material → Str → Str → List (List ℕ)
header_fields m tenant resource =
    bytes (str "comb.material/v1") ∷ bytes tenant ∷ bytes m.kind ∷ bytes resource ∷ []

pub record FitsMaterial (m : Material) (tenant resource : Str) : Type 0 where
  pub header : All Fits (header_fields m tenant resource)
  pub preconditions : All Fits (precondition_fields (sort_by_name m.preconditions))
  pub precondition_count : Fits (sort_by_name m.preconditions)
  pub payload : All Fits m.payload
  pub payload_count : Fits m.payload

length-precondition_fields :
    (ps : List Precondition) → length (precondition_fields ps) ≡ 2 * length ps
length-precondition_fields [] = refl
length-precondition_fields ((name, value) ∷ ps) = omega (arith, length-precondition_fields ps)

material_buffer-frames :
    (m : Material) (t r : Str)
    → material_buffer m t r
      ≡ frames (header_fields m t r)
        ++ (u64_be (length (sort_by_name m.preconditions))
            ++ (frames (precondition_fields (sort_by_name m.preconditions))
                ++ (u64_be (length m.payload) ++ (frames m.payload ++ []))))
unfolding material_buffer frames
material_buffer-frames m t r = simp (
  put_all-append, put_preconditions-append, put_u64-append, put_bytes-append, append_assoc,
  append-nil,
)

-- Two requests, all of whose parts are shorter than 2 ^ 64, hash the same bytes only if kind, tenant,
-- resource, sorted preconditions and payload agree.
pub material_buffer-injective :
    (m n : Material) (t u r s : Str)
    → FitsMaterial m t r
    → FitsMaterial n u s
    → material_buffer m t r ≡ material_buffer n u s
    → (header_fields m t r ≡ header_fields n u s)
      × (precondition_fields (sort_by_name m.preconditions)
          ≡ precondition_fields (sort_by_name n.preconditions))
      × (m.payload ≡ n.payload)
material_buffer-injective m n t u r s hm hn same =
    let (p, e1) =
      frames-append_injective (header_fields m t r) (header_fields n u s) _ _ hm.header hn.header
        refl (sym (material_buffer-frames m t r) ∙ same ∙ material_buffer-frames n u s) in
    let (l, e2) = u64_be-append_injective _ _ _ _ hm.precondition_count hn.precondition_count e1 in
    let (q, e3) =
      frames-append_injective _ _ _ _ hm.preconditions hn.preconditions
        (omega (
          arith,
          l,
          length-precondition_fields (sort_by_name m.preconditions),
          length-precondition_fields (sort_by_name n.preconditions),
        ))
        e2 in
    let (k, e4) = u64_be-append_injective _ _ _ _ hm.payload_count hn.payload_count e3 in
    let (w, e5) = frames-append_injective m.payload n.payload [] [] hm.payload hn.payload k e4 in
    (p, q, w)
