-- ===== src/Remediation/Catalog/Bounds.antt =====
-- packages/remediation/catalog.py: the blast radius of valid parameters.
use incident_triage.Base.{
  ℕ, ◌≤◌, ◌≡◌, some, String, Document, arith, All, find-All, Option-cases, inl, inr, subst, ◌+◌,
  null,
}
use incident_triage.Remediation.Catalog.{
  Validator, IsStrict, Params, ActionCatalogEntry, validate, blast_radius, catalog, get_entry, Fits,
  ParamsModel, scale_service_params, scale, revert, has_a_previous_value,
}

-- How much an invocation can add to the tier.
abbrev added_radius : ParamsModel → ℕ
added_radius scale_service_params = 1
added_radius _ = 0

radius_bounds :
    (e : ActionCatalogEntry) (m : ParamsModel) (p : Params)
    → Fits m p
    → (e.base_blast_radius ≤ blast_radius e p)
      × (blast_radius e p ≤ e.base_blast_radius + added_radius m)
unfolding blast_radius
radius_bounds e scale_service_params (scale service increase_by) h = ground arith
radius_bounds e m p h = ground arith

abbrev HasRoom : ActionCatalogEntry → Type 0
HasRoom e =
    (1 ≤ e.base_blast_radius)
    × (e.base_blast_radius + added_radius e.parameters ≤ e.max_blast_radius)

catalog-HasRoom : All HasRoom catalog
unfolding catalog
catalog-HasRoom = omega arith

has_a_previous_value-eq : (q p : Params) → has_a_previous_value q ≡ some p → q ≡ p
has_a_previous_value-eq (revert service key from_value null) p h = cc
has_a_previous_value-eq q p h = cc

validated-Fits :
    (v : Validator) (strict : IsStrict v) (e : ActionCatalogEntry) (d : Document) (p : Params)
    → validate v e d ≡ some p
    → Fits e.parameters p
unfolding validate
validated-Fits v strict e d p h = elim (Option-cases (v.model_validate e.parameters d)) [
  | inl rejected ↦ cc (rw rejected at h)
  | inr (q, accepted) ↦
      subst (Fits e.parameters) (has_a_previous_value-eq q p (rw accepted at h))
        (strict.fits e.parameters d q accepted)
]

-- The tier of an invocation whose parameters a strict validator accepts lies between 1 and the
-- greatest that the entry allows.
pub blast_radius_bounds :
    (v : Validator) (strict : IsStrict v) (action_id : String) {e : ActionCatalogEntry}
    (d : Document) {p : Params}
    → get_entry action_id ≡ some e
    → validate v e d ≡ some p
    → (1 ≤ blast_radius e p) × (blast_radius e p ≤ e.max_blast_radius)
unfolding get_entry
blast_radius_bounds v strict action_id {e} d {p} h valid =
    let room = find-All HasRoom _ catalog catalog-HasRoom h in
    let radius = radius_bounds e e.parameters p (validated-Fits v strict e d p valid) in omega arith
