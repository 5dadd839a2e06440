-- ===== src/Store/File/Name/Valid.antt =====
-- The ids of store/store_check.go have names of their own in store/file_name.go.
use gotato.Base.{
  ℕ, ◌<◌, true, false, none, some, List, [], ◌∷◌, Bytes, All, ◌≡◌, ap, ◌∙◌, sym, arith, inl, inr,
  Option-cases, bytes_eq, ◌===◌, bytes_beq_iff,
}
use gotato.Store.Id.{check_id, valid_string, valid_from, following}
use gotato.Store.File.Name.{name_of, id_of, id_of-name_of}

abbrev pub Small : Bytes → Type 0
Small = All (λ c. c < 256)

Ranges : List (ℕ × ℕ) → Type 0
Ranges = All (λ r. r.1 < 256)

following-Ranges : (b : ℕ) (rs : List (ℕ × ℕ)) → following b ≡ some rs → (b < 256) × Ranges rs
unfolding following Ranges
following-Ranges b rs e = ground arith

valid_from-Small : (rs : List (ℕ × ℕ)) (s : Bytes) → Ranges rs → valid_from rs s ≡ true → Small s
unfolding valid_from Ranges
valid_from-Small [] [] w h = tt
valid_from-Small (r ∷ rs) [] w h = tt
valid_from-Small [] (b ∷ s) w h = elim (Option-cases (following b)) [
  | inl e ↦ absurd (ground arith)
  | inr (rs, e) ↦
      let (small, ranges) = following-Ranges b rs e in
      (small, valid_from-Small rs s ranges (ground arith))
]
valid_from-Small ((lo, hi) ∷ rs) (b ∷ s) w h =
    (ground (arith, w.0), valid_from-Small rs s w.1 (ground arith))

check_id-Small : (id : Bytes) → check_id id ≡ none → Small id
unfolding check_id valid_string Ranges
check_id-Small id h = valid_from-Small [] id tt (ground arith)

same_name : (a b : Bytes) → check_id a ≡ none → check_id b ≡ none → name_of a ≡ name_of b → a ≡ b
same_name a b ha hb e =
    let back : some a ≡ some b =
      sym (id_of-name_of a (check_id-Small a ha))
      ∙ ap id_of e
      ∙ id_of-name_of b (check_id-Small b hb) in
    grind (arith, back)

pub other_name :
    (a b : Bytes)
    → check_id a ≡ none
    → check_id b ≡ none
    → a === b ≡ false
    → name_of a === name_of b ≡ false
other_name a b ha hb e =
    ground (arith, bytes_beq_iff a b, bytes_beq_iff (name_of a) (name_of b), same_name a b ha hb)
