-- ===== src/Api/Visits/Page.antt =====
-- The numbers of a page of visits.
use Prim.Native.Nat.{min}
use orca_validator.Prelude.{
  ◌≤◌, ◌≡◌, Bool, true, not, ◌||◌, List, [], ◌∷◌, all, keep, length, ◌&&◌, ◌++◌, if◌then◌else◌,
}
use orca_validator.Api.Visits.{ℤ, Visit, VisitPage, is_app, clamp_limit}

module _ {Time : Type 0} (later : Time → Time → Bool) where
  -- None of the rows was hit later than the visit.
  abbrev pub precedes : Visit Time → List (Visit Time) → Bool
  precedes v vs = all (λ (u : Visit Time). not (later u.hit_at v.hit_at)) vs

  abbrev pub is_sorted : List (Visit Time) → Bool
  is_sorted [] = true
  is_sorted (v ∷ vs) = precedes v vs && is_sorted vs

  -- `order_by` rearranges the rows, the newest first: the same kinds of rows, and as many.
  pub record IsOrder (newest_first : List (Visit Time) → List (Visit Time)) : Type 0 where
    pub same_length : (vs : List (Visit Time)) → length (newest_first vs) ≡ length vs
    pub same_rows :
        (p : Visit Time → Bool) (vs : List (Visit Time)) → all p (newest_first vs) ≡ all p vs
    pub newest : (vs : List (Visit Time)) → is_sorted (newest_first vs) ≡ true

  -- The numbers of a page agree with each other and with its rows, and no row that is left out was
  -- hit later than one that is shown.
  pub record IsPage (newest_first : List (Visit Time) → List (Visit Time))
      (visits : List (Visit Time)) (limit : ℤ) (app_only : Bool) (p : VisitPage Time) : Type 0 where
    pub asked : p.app_only ≡ app_only
    pub counted : p.total ≡ length visits
    pub part : p.app_total ≤ p.total
    pub people : p.unique_ips ≤ p.total
    pub rows : p.showing ≡ length p.visits
    pub full : p.showing ≡ min (clamp_limit limit) (if app_only then p.app_total else p.total)
    pub bounded : p.showing ≤ 5000
    pub left_out : List (Visit Time)
    pub parted :
        p.visits ++ left_out ≡ newest_first (if app_only then keep is_app visits else visits)
    pub recent : all (λ v. precedes v left_out) p.visits ≡ true
    pub filtered : (not app_only || all is_app p.visits) ≡ true
