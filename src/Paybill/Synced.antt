-- ===== src/Paybill/Synced.antt =====
-- After the configuration is synchronised, the processing of confirmations finds its profile.
use mathlib.Core.Path.{subst}
use supersurf_billing_phase.Common.{
  ℕ, Bool, true, false, Option, none, some, List, [], ◌∷◌, ◌==◌, find, exists, update, Text,
  text_eq, text_eq_refl, strip, Unicode, Distinct, exists-find, all_codes, is_lower_hex, strip-hex,
  ◌≡◌, refl, sym, ap, ◌∙◌, ◌⊎◌, inl, inr, Bool-cases, arith, double_negation,
}
use supersurf_billing_phase.Exec.{Result, ok, err}
use supersurf_billing_phase.Exec.Runs.{bind_then, gets_ok, refuse_ok, pure_ok, atomic_ok}
use supersurf_billing_phase.Errors.{Error}
use supersurf_billing_phase.Schema.Rows.{PaymentProviderProfile}
use supersurf_billing_phase.Schema.Database.{Db}
use supersurf_billing_phase.Ledger.Save.{save_valid_ok}
use supersurf_billing_phase.Service.Lookup.{fresh, record_event}
use supersurf_billing_phase.Callbacks.Extract.{is_ascii_digit}
use supersurf_billing_phase.Paybill.Settings.{Settings, is_identifier, is_approved}
use supersurf_billing_phase.Paybill.Process.{is_configured}
use supersurf_billing_phase.Paybill.Sync.{
  cleaned_profile, identity_protected, insert_profile, write_profile_active, save_profile,
  new_profile, is_conflicting, has_identifier, sync_found, sync_approved,
  sync_mpesa_paybill_profile,
}

returned_err :
    {A C : Type 0} {a : A} {e : Error} {s s' : Db}
    → ◌≡◌ {A = Result Error A × Db} (err e, s) (ok a, s')
    → C
returned_err h = cc

save_profile_ok :
    (adding : Bool) (write : PaymentProviderProfile → Db → Db) (p r : PaymentProviderProfile)
    (db db' : Db)
    → save_profile adding write p db ≡ (ok r, db')
    → (cleaned_profile p ≡ r) × (write (cleaned_profile p) db ≡ db')
unfolding save_profile
save_profile_ok adding write p r db db' h = elim (Bool-cases (identity_protected p db)) [
  | inl protected ↦ returned_err (rw protected at h)
  | inr free ↦ save_valid_ok _ _ _ _ r db db' (rw free at h)
]

digits-hex : (t : Text) → all_codes is_ascii_digit t ≡ true → all_codes is_lower_hex t ≡ true
unfolding all_codes
digits-hex [] h = refl
digits-hex (c ∷ t) h = ground (arith, h, digits-hex t)

approved-strip :
    (settings : Settings)
    → is_approved settings ≡ true
    → strip settings.external_identifier ≡ settings.external_identifier
unfolding is_approved is_identifier
approved-strip settings h =
    strip-hex settings.external_identifier
      (digits-hex settings.external_identifier (ground (arith, h)))

-- Rows without the key are not changed.
untouched :
    (k : ℕ) (test : PaymentProviderProfile → Bool) (rows : List PaymentProviderProfile)
    → exists (λ r. r.id == k) rows ≡ false
    → exists test rows ≡ false
    → exists test (update (λ r. r.id == k) (λ r. record r { is_active = true }) rows) ≡ false
untouched k test [] alone h = refl
untouched k test (r ∷ rows) alone h =
    let miss : (r.id == k) ≡ false = ground (arith, alone) in
    let here : test r ≡ false = ground (arith, h) in
    rw (miss, here) (untouched k test rows (ground (arith, miss, alone)) (ground (arith, here, h)))

module _ (u : Unicode) (settings : Settings) (operation_of : ℕ → ℕ) where
  -- Every active profile of the sandbox Paybill has the configured identifier, and there is one.
  abbrev pub IsSynced : List PaymentProviderProfile → Type 0
  IsSynced profiles =
      (exists (is_configured u settings operation_of) profiles ≡ true)
      × (exists (is_conflicting settings) profiles ≡ false)

  activated :
      (p : PaymentProviderProfile) (profiles : List PaymentProviderProfile)
      → Distinct (λ r. r.id) profiles
      → find (has_identifier settings) profiles ≡ some p
      → exists (is_conflicting settings) profiles ≡ false
      → IsSynced (update (λ r. r.id == p.id) (λ r. record r { is_active = true }) profiles)
  unfolding text_eq
  activated p [] d found calm = cc
  activated p (r ∷ profiles) (d, ds) found calm = elim (Bool-cases (has_identifier settings r)) [
    | inl ours ↦
        let it : r ≡ p = ground (arith, ours, found) in
        let key : r.id ≡ p.id = ap (λ r. r.id) it in
        let hit : (r.id == p.id) ≡ true = ground (arith, key) in
        let alone : exists (λ y. y.id == p.id) profiles ≡ false =
          ap (λ k. exists (λ (y : PaymentProviderProfile). y.id == k) profiles) (sym key) ∙ d in
        let rest = untouched p.id (is_conflicting settings) profiles alone (ground (arith, calm)) in
        rw hit (ground (arith, ours), ground (arith, ours, rest))
    | inr other ↦
        let below : find (has_identifier settings) profiles ≡ some p =
          ground (arith, other, found) in
        let (configured, settled) = activated p profiles ds below (ground (arith, calm)) in
        elim (Bool-cases (r.id == p.id)) [
          | inl hit ↦
              let key : r.id ≡ p.id = ground (arith, hit) in
              let there = exists-find (λ r. r.id) (has_identifier settings) profiles p below in
              let gone : exists (λ y. y.id == p.id) profiles ≡ false =
                ap (λ k. exists (λ (y : PaymentProviderProfile). y.id == k) profiles) (sym key)
                ∙ d in
              absurd (cc (sym there ∙ gone))
          | inr miss ↦ rw miss (ground (arith, configured), ground (arith, settled, calm))
        ]
  ]

  found_active :
      (p : PaymentProviderProfile) (profiles : List PaymentProviderProfile)
      → find (has_identifier settings) profiles ≡ some p
      → p.is_active ≡ true
      → exists (is_configured u settings operation_of) profiles ≡ true
  unfolding text_eq
  found_active p [] found active = cc
  found_active p (r ∷ profiles) found active = elim (Bool-cases (has_identifier settings r)) [
    | inl ours ↦
        let it : r ≡ p = ground (arith, ours, found) in
        let works : r.is_active ≡ true = ap (λ r. r.is_active) it ∙ active in
        ground (arith, ours, works)
    | inr other ↦
        let rest = found_active p profiles (ground (arith, other, found)) active in
        ground (arith, rest)
  ]

  first_synced :
      (k : ℕ) (profiles : List PaymentProviderProfile)
      → is_approved settings ≡ true
      → exists (is_conflicting settings) profiles ≡ false
      → IsSynced (cleaned_profile (new_profile settings k) ∷ profiles)
  unfolding text_eq
  first_synced k profiles approved calm =
      let same : text_eq (strip settings.external_identifier) settings.external_identifier ≡ true =
        ap (λ t. text_eq t settings.external_identifier) (approved-strip settings approved)
        ∙ text_eq_refl settings.external_identifier in
      (rw same refl, rw same calm)

  sync_found_ok :
      (o : Option PaymentProviderProfile) (db db' : Db) (p : PaymentProviderProfile)
      → Distinct (λ r. r.id) db.profiles
      → is_approved settings ≡ true
      → find (has_identifier settings) db.profiles ≡ o
      → exists (is_conflicting settings) db.profiles ≡ false
      → sync_found settings o db ≡ (ok p, db')
      → IsSynced db'.profiles
  unfolding sync_found fresh record_event
  sync_found_ok none db db' p d approved found calm h = bind_then _ _ db h λ k s1 drawn h1.
      bind_then _ _ s1 h1 λ saved s2 stored h2. bind_then _ _ s2 h2 λ x s3 told h3.
        let (row, written) =
          save_profile_ok true insert_profile (new_profile settings k) saved s1 s2 stored in
        let rows : cleaned_profile (new_profile settings k) ∷ db.profiles ≡ db'.profiles =
          ap (λ x. cleaned_profile (new_profile settings k) ∷ x.1.profiles) drawn
          ∙ ap (λ d. d.profiles) written
          ∙ ap (λ x. x.1.profiles) told
          ∙ ap (λ d. d.profiles) (pure_ok saved p s3 db' h3).1 in
        subst IsSynced rows (first_synced k db.profiles approved calm)
  sync_found_ok (some r) db db' p d approved found calm h = elim (Bool-cases r.is_active) [
    | inl active ↦
        let (answer, same) = pure_ok _ p db db' (rw active at h) in
        subst (λ (d : Db). IsSynced d.profiles) same (found_active r db.profiles found active, calm)
    | inr inactive ↦ bind_then _ _ db (rw inactive at h) λ saved s2 stored h2.
        bind_then _ _ s2 h2 λ x s3 told h3.
          let (row, written) =
            save_profile_ok false write_profile_active (record r { is_active = true }) saved db s2
              stored in
          let rows : (write_profile_active (record r { is_active = true }) db).profiles
              ≡ db'.profiles =
            ap (λ d. d.profiles) written
            ∙ ap (λ x. x.1.profiles) told
            ∙ ap (λ d. d.profiles) (pure_ok saved p s3 db' h3).1 in
          subst IsSynced rows (activated r db.profiles d found calm)
  ]

  -- When the synchronisation of the configured profile returns, either ingestion is not enabled, no
  -- profile is answered and none has changed; or the settings are approved, an active profile of the
  -- sandbox Paybill with the configured identifier is there, for the processing of confirmations to
  -- find, and no active one with another identifier. The profiles have distinct keys.
  pub sync_mpesa_paybill_profile_ok :
      (db db' : Db) (answer : Option PaymentProviderProfile)
      → Distinct (λ r. r.id) db.profiles
      → sync_mpesa_paybill_profile settings db ≡ (ok answer, db')
      → ((settings.ingestion_enabled ≡ false) × (answer ≡ none) × (db'.profiles ≡ db.profiles))
        ⊎ ((settings.ingestion_enabled ≡ true)
            × (is_approved settings ≡ true)
            × IsSynced db'.profiles)
  unfolding sync_mpesa_paybill_profile sync_approved
  sync_mpesa_paybill_profile_ok db db' answer d h =
      let run = atomic_ok _ db h in
      elim (Bool-cases settings.ingestion_enabled) [
        | inr off ↦
            let (is, same) = pure_ok none answer db db' (rw off at run) in
            inl (off, sym is, sym (ap (λ d. d.profiles) same))
        | inl on ↦
            let (refused, h1) = refuse_ok _ _ _ db (rw on at run) in
            let approved = double_negation _ refused in
            bind_then _ _ db h1 λ conflict s1 asked h2.
              let (conflict_is, same1) = gets_ok _ conflict db s1 asked in
              let (none_conflicts, h3) = refuse_ok _ _ _ s1 h2 in
              bind_then _ _ s1 h3 λ found s2 queried h4. bind_then _ _ s2 h4 λ saved s3 synced h5.
                let (found_is, same2) = gets_ok _ found s1 s2 queried in
                let back : db ≡ s2 = same1 ∙ same2 in
                let (is, same3) = pure_ok (some saved) answer s3 db' h5 in
                inr (
                  on,
                  approved,
                  subst (λ (d : Db). IsSynced d.profiles) same3
                      (sync_found_ok found s2 s3 saved
                        (subst (λ (s : Db). Distinct (λ r. r.id) s.profiles) back d) approved
                        (ap (λ s. find (has_identifier settings) s.profiles) (sym same2) ∙ found_is)
                        (ap (λ s. exists (is_conflicting settings) s.profiles) (sym back)
                          ∙ conflict_is
                          ∙ none_conflicts)
                        synced),
                )
      ]
