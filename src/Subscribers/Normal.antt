-- ===== src/Subscribers/Normal.antt =====
-- The normal form of a phone number.
use supersurf_billing_phase.Common.{
  ℕ, length, All, some, ◌⊎◌, ◌==◌, Option-cases, ◌≡◌, refl, ap, sym, ◌∙◌, inl, inr, true, false, [],
  ◌∷◌, ◌++◌, Text, codes, is_blank, is_space, lstrip, rstrip, strip, all_codes, Unicode, arith,
  Bool-cases, if◌then◌else◌,
}
use supersurf_billing_phase.Exec.{Result, ok, err}
use supersurf_billing_phase.Errors.{Issue}
use supersurf_billing_phase.Subscribers.Phone.{
  is_separator, without_separators, after_prefix, country, national_part, is_national,
  checked_national, international, normalize_kenyan_phone,
}

-- Neither white space nor one of the separators.
abbrev pub IsPlain : ℕ → Type 0
IsPlain c = (is_space c ≡ false) × (is_separator c ≡ false)

abbrev Plain : Text → Type 0
Plain [] = Unit
Plain (c ∷ t) = IsPlain c × Plain t

lstrip-Plain : (t : Text) → Plain t → lstrip t ≡ t
unfolding lstrip
lstrip-Plain [] h = refl
lstrip-Plain (c ∷ t) h = ground arith

rstrip-Plain : (t : Text) → Plain t → rstrip t ≡ t
unfolding rstrip
rstrip-Plain [] h = refl
rstrip-Plain (c ∷ t) h = ground (arith, rstrip-Plain t)

strip-Plain : (t : Text) → Plain t → strip t ≡ t
unfolding strip
strip-Plain t h = ap rstrip (lstrip-Plain t h) ∙ rstrip-Plain t h

without_separators-Plain : (t : Text) → Plain t → without_separators t ≡ t
unfolding without_separators
without_separators-Plain [] h = refl
without_separators-Plain (c ∷ t) h = ground (arith, without_separators-Plain t)

all_digits-Plain :
    (u : Unicode)
    → ((c : ℕ) → u.is_digit c ≡ true → IsPlain c)
    → (t : Text) → all_codes u.is_digit t ≡ true
    → Plain t
unfolding all_codes
all_digits-Plain u plain [] h = tt
all_digits-Plain u plain (c ∷ t) h =
    (plain c (ground arith), all_digits-Plain u plain t (ground arith))

checked_national_ok :
    (u : Unicode) (t n : Text)
    → checked_national u t ≡ ok n
    → (is_national u t ≡ true) × (country ++ t ≡ n)
unfolding checked_national
checked_national_ok u t n h = elim (Bool-cases (is_national u t)) [
  | inl valid ↦ (valid, ground (arith, valid))
  | inr other ↦ absurd (ground (arith, other))
]

international_ok :
    (u : Unicode) (r : Result Issue Text) (n : Text)
    → international u r ≡ ok n
    → (t : Text) × (is_national u t ≡ true) × (country ++ t ≡ n) × (r ≡ ok t)
unfolding international
international_ok u (ok t) n h =
    let (valid, is) = checked_national_ok u t n h in (t, valid, is, refl)
international_ok u (err issue) n h = cc

after_prefix_ok : (prefix t rest : Text) → after_prefix prefix t ≡ some rest → t ≡ prefix ++ rest
unfolding after_prefix
after_prefix_ok [] t rest h = ground (arith, h)
after_prefix_ok (p ∷ prefix) [] rest h = cc
after_prefix_ok (p ∷ prefix) (c ∷ t) rest h = elim (Bool-cases (c == p)) [
  | inl same ↦
      let tail : t ≡ prefix ++ rest = after_prefix_ok prefix t rest (ground (arith, same, h)) in
      let head : c ≡ p = ground (arith, same) in cc
  | inr other ↦ absurd (ground (arith, other, h))
]

-- A text is a national number behind its country code, with or without the plus, or behind a zero.
abbrev pub IsSpelling : Text → Text → Type 0
IsSpelling v t = (v ≡ codes "+254" ++ t) ⊎ (v ≡ codes "254" ++ t) ⊎ (v ≡ codes "0" ++ t)

national_part_ok : (v t : Text) → national_part v ≡ ok t → IsSpelling v t
unfolding national_part
national_part_ok v t h = elim (Option-cases (after_prefix country v)) [
  | inr (r, is) ↦ inl (after_prefix_ok country v t (ground (arith, is, h)))
  | inl no_plus ↦ elim (Option-cases (after_prefix (codes "254") v)) [
    | inr (r, is) ↦ inr (inl (after_prefix_ok (codes "254") v t (ground (arith, no_plus, is, h))))
    | inl no_code ↦ elim (Option-cases (after_prefix (codes "0") v)) [
      | inr (r, is) ↦
          inr (inr (after_prefix_ok (codes "0") v t (ground (arith, no_plus, no_code, is, h))))
      | inl no_zero ↦ absurd (ground (arith, no_plus, no_code, no_zero, h))
    ]
  ]
]

-- Nine digits, of which the first is 1 or 7.
pub record IsNational (u : Unicode) (t : Text) : Type 0 where
  pub nine : length t ≡ 9
  pub digits_lem : All (λ c. u.is_digit c ≡ true) t
  pub first : ℕ
  pub others : Text
  pub split : t ≡ first ∷ others
  pub mobile : (first ≡ b'1') ⊎ (first ≡ b'7')

digits-All :
    (u : Unicode) (t : Text) → all_codes u.is_digit t ≡ true → All (λ c. u.is_digit c ≡ true) t
unfolding all_codes
digits-All u [] h = tt
digits-All u (c ∷ t) h = (ground arith, digits-All u t (ground arith))

is_national_ok : (u : Unicode) (t : Text) → is_national u t ≡ true → IsNational u t
unfolding is_national
is_national_ok u [] h = cc
is_national_ok u (c ∷ t) h = record {
  nine = ground (arith, h);
  digits_lem = digits-All u (c ∷ t) (ground (arith, h));
  first = c;
  others = t;
  split = refl;
  mobile = ground (arith, h);
}

-- A phone number that is accepted is, stripped and without its separators, a national number behind
-- +254, 254 or 0, and becomes +254 and the national number: nine digits, the first of them 1 or 7.
pub normalize_kenyan_phone_ok :
    (u : Unicode) (value n : Text)
    → normalize_kenyan_phone u value ≡ ok n
    → (t : Text) × IsNational u t
      × IsSpelling (without_separators (strip value)) t
      × (n ≡ codes "+254" ++ t)
unfolding normalize_kenyan_phone
normalize_kenyan_phone_ok u value n h =
    elim (Bool-cases (is_blank (without_separators (strip value)))) [
      | inl blank ↦ absurd (ground (arith, blank))
      | inr given ↦
          let run : international u (national_part (without_separators (strip value))) ≡ ok n =
            ground (arith, given) in
          let (t, valid, is, part) =
            international_ok u (national_part (without_separators (strip value))) n run in
          (t, is_national_ok u t valid, national_part_ok _ t part, sym is)
    ]

accepted :
    (u : Unicode) (value t : Text)
    → Plain value
    → is_blank value ≡ false
    → national_part value ≡ ok t
    → is_national u t ≡ true
    → normalize_kenyan_phone u value ≡ ok (country ++ t)
unfolding normalize_kenyan_phone international checked_national
accepted u value t plain given is valid =
    let same : without_separators (strip value) ≡ value =
      ap without_separators (strip-Plain value plain) ∙ without_separators-Plain value plain in
    ap normalized same ∙ rw (given, is, valid)
  where
    normalized : Text → Result Issue Text
    normalized v =
        if is_blank v then err Issue.phone_required else international u (national_part v)

module _ (u : Unicode) (plain : (c : ℕ) → u.is_digit c ≡ true → IsPlain c) (t : Text)
    (valid : is_national u t ≡ true) where
  national-Plain : Plain t
  unfolding is_national
  national-Plain = all_digits-Plain u plain t (ground arith)

  -- A national number is accepted with its country code, with the code but no plus, and with a zero,
  -- and its normal form is the same; so the normal form of a number is its own normal form. No digit
  -- is white space or one of the separators that the function drops.
  pub normalize_kenyan_phone-spellings :
      (normalize_kenyan_phone u (country ++ t) ≡ ok (country ++ t))
      × (normalize_kenyan_phone u (codes "254" ++ t) ≡ ok (country ++ t))
      × (normalize_kenyan_phone u (codes "0" ++ t) ≡ ok (country ++ t))
  unfolding national_part is_space
  normalize_kenyan_phone-spellings =
      let h = national-Plain in
      (
        accepted u (country ++ t) t
            ((refl, refl), ((refl, refl), ((refl, refl), ((refl, refl), h)))) refl refl valid,
        accepted u (codes "254" ++ t) t ((refl, refl), ((refl, refl), ((refl, refl), h))) refl refl
            valid,
        accepted u (codes "0" ++ t) t ((refl, refl), h) refl refl valid,
      )
