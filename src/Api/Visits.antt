-- ===== src/Api/Visits.antt =====
-- backend/api/visits.py: the log of the visits to the site.
pub mod Page
use Prim.Native.Nat.{min, max}
use orca_validator.Prelude.{
  ℕ, suc, Bool, true, false, ◌||◌, List, [], ◌∷◌, ◌++◌, Option, none, some, Text, lit, is_empty,
  text_eq, any, keep, take, length, if◌then◌else◌,
}
use orca_validator.Api.Http.{Response, reply, refused, require_api_key}

-- Python's integers, over the native numbers.
pub data ℤ : Type 0 where
  pos negsuc : ℕ → ℤ

-- A row of the table `visits`; `hit_at` is set by the database and is never null.
pub record Visit (Time : Type 0) : Type 0 where
  pub ip : Text
  pub path : Text
  pub user_agent : Option Text
  pub hit_at : Time

-- `APP_PATHS`
abbrev pub app_paths : List Text
app_paths = lit "/" ∷ lit "/privacy" ∷ lit "/tos" ∷ lit "/visits" ∷ []

pub record VisitIn : Type 0 where
  pub ip : Text
  pub path : Text
  pub user_agent : Option Text

abbrev pub path_or : Text → Text
path_or path = if is_empty path then lit "/" else path

-- `(body.user_agent or "")[:512] or None`
abbrev pub agent_of : Option Text → Option Text
agent_of none = none
agent_of (some a) = if is_empty a then none else some (take 512 a)

-- `max(1, min(5000, limit))`
unfoldable pub clamp_limit : ℤ → ℕ
clamp_limit (negsuc n) = 1
clamp_limit (pos n) = max 1 (min 5000 n)

-- `count(distinct(ip))` counts these.
unfoldable pub distinct : List Text → List Text
distinct [] = []
distinct (t ∷ ts) = let rest = distinct ts in if any (λ u. text_eq u t) rest then rest else t ∷ rest

-- The answer of `list_visits`.
pub record VisitPage (Time : Type 0) : Type 0 where
  pub total : ℕ
  pub app_total : ℕ
  pub unique_ips : ℕ
  pub app_only : Bool
  pub showing : ℕ
  pub visits : List (Visit Time)

-- Behind `require_api_key`.
abbrev pub behind : {A : Type 0} → Response Text → A → Response A
behind (reply subject) a = reply a
behind (refused code) a = refused code

module _ {Time : Type 0} where
  abbrev pub is_app : Visit Time → Bool
  is_app v = any (λ p. text_eq p v.path) app_paths

  abbrev pub visit_of : VisitIn → Time → Visit Time
  visit_of body now = record {
    ip = take 64 body.ip;
    path = take 512 (path_or body.path);
    user_agent = agent_of body.user_agent;
    hit_at = now;
  }

  abbrev pub ips : List (Visit Time) → List Text
  ips [] = []
  ips (v ∷ vs) = v.ip ∷ ips vs

  -- `record_visit`: the table after the commit
  unfoldable pub record_visit :
      Text → Text → VisitIn → Time → List (Visit Time) → Response (List (Visit Time))
  unfolding require_api_key
  record_visit api_key authorization body now visits =
      behind (require_api_key api_key authorization) (visits ++ visit_of body now ∷ [])

  -- The page; `newest_first` is the `order_by` of the database.
  unfoldable pub page_of :
      (List (Visit Time) → List (Visit Time)) → ℤ → Bool → List (Visit Time) → VisitPage Time
  unfolding clamp_limit distinct
  page_of newest_first limit app_only visits =
      let asked = if app_only then keep is_app visits else visits in
      let rows = take (clamp_limit limit) (newest_first asked) in
      record {
        total = length visits;
        app_total = length (keep is_app visits);
        unique_ips = length (distinct (ips visits));
        app_only = app_only;
        showing = length rows;
        visits = rows;
      }

  -- `list_visits`
  unfoldable pub list_visits :
      (List (Visit Time) → List (Visit Time))
      → Text
      → Text
      → ℤ
      → Bool
      → List (Visit Time)
      → Response (VisitPage Time)
  unfolding page_of require_api_key
  list_visits newest_first api_key authorization limit app_only visits =
      behind (require_api_key api_key authorization) (page_of newest_first limit app_only visits)
