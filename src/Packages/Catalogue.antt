-- ===== src/Packages/Catalogue.antt =====
-- The packages stay fit for sale.
use supersurf_billing_phase.Common.{
  ℕ, ◌≤◌, Bool, true, false, not, ◌&&◌, ◌||◌, List, [], ◌∷◌, ◌==◌, exists, update, All, Text,
  text_eq, text_eq-eq, text_eq_refl, is_blank, ◌≡◌, refl, sym, ap, ◌∙◌, inl, inr, Bool-cases, arith,
  Distinct, double_negation,
}
use supersurf_billing_phase.Schema.Rows.{Plan}
use supersurf_billing_phase.Schema.Database.{Db}
use supersurf_billing_phase.Money.{kes, max_money_minor}
use supersurf_billing_phase.Validation.{collect-Passes, Passes}
use supersurf_billing_phase.Ledger.Clean.{out_of_range}
use supersurf_billing_phase.Packages.Clean.{
  plan_field_checks, plan_clean_checks, same_name, plan_full_clean,
}

-- A package that can be sold: it has a name, a price, a speed and a duration, in the ranges of their
-- columns, and costs Kenyan shillings.
pub record IsSellable (p : Plan) : Type 0 where
  pub named : is_blank p.name ≡ false
  pub speed : (1 ≤ p.download_speed_mbps) × (p.download_speed_mbps ≤ max_money_minor)
  pub price : (1 ≤ p.price_minor) × (p.price_minor ≤ max_money_minor)
  pub duration : (1 ≤ p.duration_days) × (p.duration_days ≤ max_money_minor)
  pub grace : p.grace_period_hours ≤ max_money_minor
  pub currency : p.currency ≡ kes

in_range : (low n : ℕ) → out_of_range low n ≡ false → (low ≤ n) × (n ≤ max_money_minor)
in_range low n h = (ground (arith, h), ground (arith, h))

pub clean-IsSellable :
    (p : Plan) → Passes (plan_field_checks p) → Passes (plan_clean_checks p) → IsSellable p
clean-IsSellable p (named, (long, (speed, (price, (currency, (wide, (duration, (grace, rest))))))))
      cleans =
    record {
      named = named;
      speed = in_range 1 p.download_speed_mbps speed;
      price = in_range 1 p.price_minor price;
      duration = in_range 1 p.duration_days duration;
      grace = (in_range 0 p.grace_period_hours grace).1;
      currency = text_eq-eq p.currency kes (double_negation _ cleans.1.0);
    }

text_eq_sym : (a b : Text) → text_eq a b ≡ false → text_eq b a ≡ false
text_eq_sym a b h = elim (Bool-cases (text_eq b a)) [
  | inl same ↦
      let it : b ≡ a = text_eq-eq b a same in cc (sym h ∙ ap (text_eq a) it ∙ text_eq_refl a)
  | inr other ↦ other
]

module _ (lower : Text → Text) where
  -- No two packages have the same name up to the case of its letters.
  abbrev pub UniqueNames : List Plan → Type 0
  UniqueNames [] = Unit
  UniqueNames (p ∷ plans) = (exists (same_name lower p) plans ≡ false) × UniqueNames plans

  pub record IsCatalogue (plans : List Plan) : Type 0 where
    pub keys : Distinct (λ p. p.id) plans
    pub sellable : All IsSellable plans
    pub names : UniqueNames plans

  pub new-IsCatalogue :
      (p : Plan) (db : Db)
      → plan_full_clean lower true db p ≡ []
      → IsCatalogue db.plans
      → IsCatalogue (p ∷ db.plans)
  unfolding plan_full_clean
  new-IsCatalogue p db clean c =
      let (fields, cleans, uniques) = collect-Passes _ _ _ clean in
      record {
        keys = (uniques.0, c.keys);
        sellable = (clean-IsSellable p fields cleans, c.sellable);
        names = (uniques.1.0, c.names);
      }

-- Changes of the rows with one key.
module _ (k : ℕ) (f : Plan → Plan)
    (same_key : (r : Plan) → (r.id == k) ≡ true → (f r).id ≡ r.id) where
  abbrev changed : List Plan → List Plan
  changed plans = update (λ r. r.id == k) f plans

  exists-changed :
      (test : Plan → Bool) (plans : List Plan)
      → ((r : Plan) → (r.id == k) ≡ true → test (f r) ≡ test r)
      → exists test (changed plans) ≡ exists test plans
  exists-changed test [] same = refl
  exists-changed test (r ∷ plans) same = elim (Bool-cases (r.id == k)) [
    | inl hit ↦ rw (hit, same r hit) (ap (λ b. test r || b) (exists-changed test plans same))
    | inr miss ↦ rw miss (ap (λ b. test r || b) (exists-changed test plans same))
  ]

  pub changed-Distinct :
      (plans : List Plan) → Distinct (λ p. p.id) plans → Distinct (λ p. p.id) (changed plans)
  changed-Distinct [] d = tt
  changed-Distinct (r ∷ plans) (d, rest) =
      let keys =
        exists-changed (λ y. y.id == r.id) plans (λ x hit. ap (λ j. j == r.id) (same_key x hit)) in
      elim (Bool-cases (r.id == k)) [
        | inl hit ↦ rw (hit, same_key r hit) (keys ∙ d, changed-Distinct plans rest)
        | inr miss ↦ rw miss (keys ∙ d, changed-Distinct plans rest)
      ]

  pub changed-All :
      (plans : List Plan)
      → ((r : Plan) → IsSellable r → IsSellable (f r))
      → All IsSellable plans
      → All IsSellable (changed plans)
  changed-All [] step h = tt
  changed-All (r ∷ plans) step (h, rest) = elim (Bool-cases (r.id == k)) [
    | inl hit ↦ rw hit (step r h, changed-All plans step rest)
    | inr miss ↦ rw miss (h, changed-All plans step rest)
  ]

  -- A test that no other row passes, and no changed one.
  exists-none :
      (test : Plan → Bool) (plans : List Plan)
      → exists (λ r. not (r.id == k) && test r) plans ≡ false
      → ((r : Plan) → (r.id == k) ≡ true → test (f r) ≡ false)
      → exists test (changed plans) ≡ false
  exists-none test [] others changes = refl
  exists-none test (r ∷ plans) others changes = elim (Bool-cases (r.id == k)) [
    | inl hit ↦
        rw (hit, changes r hit) (exists-none test plans (ground (arith, hit, others)) changes)
    | inr miss ↦
        let here : test r ≡ false = ground (arith, miss, others) in
        rw (miss, here) (exists-none test plans (ground (arith, miss, others)) changes)
  ]

  -- Where no row has the key.
  exists-untouched :
      (test : Plan → Bool) (plans : List Plan)
      → exists (λ r. r.id == k) plans ≡ false
      → exists (λ r. not (r.id == k) && test r) plans ≡ false
      → exists test (changed plans) ≡ false
  exists-untouched test [] alone others = refl
  exists-untouched test (r ∷ plans) alone others =
      let miss : (r.id == k) ≡ false = ground (arith, alone) in
      let here : test r ≡ false = ground (arith, miss, others) in
      rw (miss, here)
        (exists-untouched test plans (ground (arith, miss, alone)) (ground (arith, miss, others)))

pub same_key_at : (p r : Plan) → (r.id == p.id) ≡ true → p.id ≡ r.id
same_key_at p r hit = ground (arith, hit)

exists-and :
    (first test : Plan → Bool) (plans : List Plan)
    → exists test plans ≡ false
    → exists (λ r. first r && test r) plans ≡ false
exists-and first test [] h = refl
exists-and first test (r ∷ plans) h =
    let here : test r ≡ false = ground (arith, h) in
    let rest = exists-and first test plans (ground (arith, h)) in ground (arith, here, rest)

module _ (lower : Text → Text) where
  -- The names stay.
  pub kept-UniqueNames :
      (k : ℕ) (b : Bool) (plans : List Plan)
      → UniqueNames lower plans
      → UniqueNames lower (update (λ r. r.id == k) (λ r. record r { is_active = b }) plans)
  kept-UniqueNames k b [] h = tt
  kept-UniqueNames k b (r ∷ plans) (h, rest) =
      let names =
        exists-changed k (λ r. record r { is_active = b }) (λ r hit. refl) (same_name lower r) plans
          (λ x hit. refl) in
      elim (Bool-cases (r.id == k)) [
        | inl hit ↦ rw hit (names ∙ h, kept-UniqueNames k b plans rest)
        | inr miss ↦ rw miss (names ∙ h, kept-UniqueNames k b plans rest)
      ]

  -- The rows with the key get a name that no other row has.
  pub renamed-UniqueNames :
      (p : Plan) (plans : List Plan)
      → Distinct (λ p. p.id) plans
      → UniqueNames lower plans
      → exists (λ r. not (r.id == p.id) && same_name lower p r) plans ≡ false
      → UniqueNames lower (update (λ r. r.id == p.id) (λ _. p) plans)
  renamed-UniqueNames p [] d h free = tt
  renamed-UniqueNames p (r ∷ plans) (d, ds) (h, hs) free = elim (Bool-cases (r.id == p.id)) [
    | inl hit ↦
        let key : r.id ≡ p.id = ground (arith, hit) in
        let alone : exists (λ y. y.id == p.id) plans ≡ false =
          ap (λ k. exists (λ (y : Plan). y.id == k) plans) (sym key) ∙ d in
        let others : exists (λ r. not (r.id == p.id) && same_name lower p r) plans ≡ false =
          ground (arith, hit, free) in
        rw hit (
          exists-untouched p.id (λ _. p) (same_key_at p) (same_name lower p) plans alone others,
          renamed-UniqueNames p plans ds hs others,
        )
    | inr miss ↦
        let others : exists (λ r. not (r.id == p.id) && same_name lower p r) plans ≡ false =
          ground (arith, miss, free) in
        let here : same_name lower p r ≡ false = ground (arith, miss, free) in
        rw miss (
          exists-none p.id (λ _. p) (same_key_at p) (same_name lower r) plans
              (exists-and (λ r. not (r.id == p.id)) (same_name lower r) plans h)
              (λ x hit. text_eq_sym (lower r.name) (lower p.name) here),
          renamed-UniqueNames p plans ds hs others,
        )
  ]
