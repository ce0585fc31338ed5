-- ===== src/Api/Rights.antt =====
-- Who has which right by dike-services/src/api/server.ts.
use dike_monolith.Prelude.{
  ◌≡◌, ◌≢◌, ◌↔◌, ◌⊎◌, inl, inr, refl, arith, Bool, true, false, not, Option, none, some, List, [],
  ◌∷◌, String, ◌==◌, string_eq, keep, ==_refl,
}
use dike_monolith.Prelude.Dict.{lookup}
use dike_monolith.Store.Upserts.{includes}
use dike_monolith.Store.Database.{Database}
use dike_monolith.Api.Authorization.{
  matches_admin_key, admin_paths, pre_handler, lists_of, config_of, Authorities, normalize_address,
  column_address, approved_addresses, admin_addresses, authorize,
}

abbrev pub IsGiven : Option String → Option String → Type 0
IsGiven key header = (k : String) × (key ≡ some k) × (k ≢ "") × (header ≡ some k)

matches-IsGiven :
    (key header : Option String) → matches_admin_key key header ≡ true → IsGiven key header
unfolding matches_admin_key
matches-IsGiven (some k) (some h) e = (
  k,
  refl,
  λ b. absurd (ground (arith, e, string_eq.beq_iff k "", b)),
  ground (arith, e, string_eq.beq_iff h k),
)
matches-IsGiven (some k) none e = absurd (ground (arith, e))
matches-IsGiven none header e = absurd (ground (arith, e))

given_matches :
    (key header : Option String) → IsGiven key header → matches_admin_key key header ≡ true
unfolding matches_admin_key
given_matches key header (k, e, n, h) =
    rw (e, h) (ground (arith, n, string_eq.beq_iff k "", ==_refl k))

hook_iff :
    (key : Option String) (path : String) (header : Option String)
    → (pre_handler key path header ≡ none)
      ↔ ((includes admin_paths path ≡ false) ⊎ (matches_admin_key key header ≡ true))
unfolding pre_handler
hook_iff key path header = ground arith

-- A request of an admin path is let through just where the service has a key that is not blank and the request
-- gives it; every other path is open.
pub pre_handler_iff :
    (key : Option String) (path : String) (header : Option String)
    → (pre_handler key path header ≡ none)
      ↔ ((includes admin_paths path ≡ false) ⊎ IsGiven key header)
pre_handler_iff key path header =
    let hook = hook_iff key path header in
    (
      λ h. elim (hook.0 h) [ inl n ↦ inl n | inr m ↦ inr (matches-IsGiven key header m) ],
      λ h. elim h [ inl n ↦ hook.1 (inl n) | inr g ↦ hook.1 (inr (given_matches key header g)) ],
    )

module _ (trim to_upper : String → String) where
  -- A row that approves the address, in some spelling.
  abbrev pub Listed : String → String → String → List ((String × (String × String)) × Bool) → Type 0
  Listed network kind address [] = ⊥
  Listed network kind address (((n, (k, a)), approved) ∷ rows) =
      ((n ≡ network)
        × (k ≡ kind)
        × (normalize_address trim to_upper a ≡ address)
        × (approved ≡ true))
      ⊎ Listed network kind address rows

  Listed-iff :
      (network kind address : String) (rows : List ((String × (String × String)) × Bool))
      → (includes (approved_addresses trim to_upper kind (lists_of network rows)) address ≡ true)
        ↔ Listed network kind address rows
  unfolding includes approved_addresses lists_of
  Listed-iff network kind address [] = ground arith
  Listed-iff network kind address (((n, (k, a)), approved) ∷ rows) = ground (
    arith,
    Listed-iff network kind address rows,
    string_eq.beq_iff n network,
    string_eq.beq_iff k kind,
    string_eq.beq_iff (normalize_address trim to_upper a) address,
  )

  kept_iff :
      (xs : List String) (s : String)
      → (includes (keep (λ x. not (x == "")) xs) s ≡ true) ↔ ((s ≢ "") × (includes xs s ≡ true))
  unfolding includes
  kept_iff [] s = ground arith
  kept_iff (x ∷ xs) s =
      ground (
        arith,
        kept_iff xs s,
        string_eq.beq_iff x "",
        string_eq.beq_iff x s,
        string_eq.beq_iff s "",
      )

  one_of_iff :
      (w x y z s : String)
      → (includes (w ∷ (x ∷ (y ∷ (z ∷ [])))) s ≡ true) ↔ ((w ≡ s) ⊎ ((x ≡ s) ⊎ ((y ≡ s) ⊎ (z ≡ s))))
  unfolding includes
  one_of_iff w x y z s = ground (
    arith,
    string_eq.beq_iff w s,
    string_eq.beq_iff x s,
    string_eq.beq_iff y s,
    string_eq.beq_iff z s,
  )

  -- An address may create markets where a row of the governance lists approves it as a creator in some spelling, and
  -- take part in the council where one approves it as a member. It is an admin where it is not blank and is the
  -- admin or the authority of the manifest, or the timelock or the pause authority that the tables hold.
  pub authorize_iff :
      (a : Authorities) (db : Database) (given : String)
      → (((authorize trim to_upper a db given).can_create ≡ true)
          ↔ Listed a.network "creator" (normalize_address trim to_upper given) db.governance_lists)
        × (((authorize trim to_upper a db given).can_council ≡ true)
            ↔ Listed a.network "member" (normalize_address trim to_upper given) db.governance_lists)
        × (((authorize trim to_upper a db given).can_admin ≡ true) ↔ (
            (normalize_address trim to_upper given ≢ "")
            × ((normalize_address trim to_upper a.admin ≡ normalize_address trim to_upper given)
                ⊎ ((normalize_address trim to_upper a.governance_authority
                      ≡ normalize_address trim to_upper given)
                    ⊎ ((column_address trim to_upper (lookup "timelock" (config_of a.network db))
                          ≡ normalize_address trim to_upper given)
                        ⊎ (column_address trim to_upper
                              (lookup "pause_authority" (config_of a.network db))
                            ≡ normalize_address trim to_upper given))))))
  unfolding authorize admin_addresses
  authorize_iff a db given =
      let address = normalize_address trim to_upper given in
      let w = normalize_address trim to_upper a.admin in
      let x = normalize_address trim to_upper a.governance_authority in
      let y = column_address trim to_upper (lookup "timelock" (config_of a.network db)) in
      let z = column_address trim to_upper (lookup "pause_authority" (config_of a.network db)) in
      let kept = kept_iff (w ∷ (x ∷ (y ∷ (z ∷ [])))) address in
      let one = one_of_iff w x y z address in
      (
        Listed-iff a.network "creator" address db.governance_lists,
        Listed-iff a.network "member" address db.governance_lists,
        (λ h. ((kept.0 h).0, one.0 (kept.0 h).1), λ h. kept.1 (h.0, one.1 h.1)),
      )
