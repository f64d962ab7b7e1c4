-- ===== src/Apps.antt =====
-- service/app.go, service/capacity.go and store/postgres/app.go: the apps, each of a user or of
-- nobody. A request carries the user of its context, `none` where it has none. Names and addresses
-- are lists of code points.
use mini_paa_s.Common.{
  ℕ, suc, Bool, true, false, ◌&&◌, ◌||◌, not, List, [], ◌∷◌, Option, none, some, ltb, leb, ◌==◌,
  if◌then◌else◌, length, text_eq,
}
use mini_paa_s.Common.Results.{Result, ok, err, ◌>>=◌, ◌>>◌, guard}
use mini_paa_s.Domain.{AppStatus}
use mini_paa_s.BuildQueue.{BuildQueueStats}
use mini_paa_s.SourceGit.{is_lower, is_digit}
pub mod Creation
pub mod Quota
pub mod Isolation
pub mod Names
mod Tests

pub record Row : Type 0 where
  pub id : ℕ
  pub name : List ℕ
  pub owner : Option ℕ
  pub status : AppStatus
  pub public_url : List ℕ

abbrev pub Table : Type 0
Table = List Row

pub data Error : Type 0 where
  name_invalid name_taken capacity_exceeded not_found store_failed : Error

-- `owner_user_id = @owner_user_id`
abbrev pub is_owner : Option ℕ → ℕ → Bool
is_owner none user = false
is_owner (some owner) user = owner == user

-- Whether a query for the user of the context reaches the row.
abbrev pub reaches : Option ℕ → Row → Bool
reaches none r = true
reaches (some user) r = is_owner r.owner user

-- `GetByName` and `GetByID`
abbrev pub get_by_name : Option ℕ → List ℕ → Table → Result Error Row
get_by_name user name [] = err Error.not_found
get_by_name user name (r ∷ rs) =
    let rest = get_by_name user name rs in
    if text_eq r.name name && reaches user r then ok r else rest

abbrev pub get_by_id : Option ℕ → ℕ → Table → Result Error Row
get_by_id user id [] = err Error.not_found
get_by_id user id (r ∷ rs) =
    let rest = get_by_id user id rs in if r.id == id && reaches user r then ok r else rest

-- `List`, up to order
abbrev pub list : Option ℕ → Table → List Row
list user [] = []
list user (r ∷ rs) = let rest = list user rs in if reaches user r then r ∷ rest else rest

-- `Count`
abbrev pub count : Option ℕ → Table → ℕ
count user t = length (list user t)

abbrev pub has_name : List ℕ → Table → Bool
has_name name [] = false
has_name name (r ∷ rs) = text_eq r.name name || has_name name rs

-- `Create` of the store: an insert, which a name that is taken violates
abbrev pub insert : Option ℕ → ℕ → List ℕ → Table → Result Error Table
insert user id name t =
    if has_name name t
    then err Error.name_taken
    else ok (
        record { id = id; name = name; owner = user; status = AppStatus.idle; public_url = [] } ∷ t)

-- `UPDATE apps SET … WHERE id = @id AND …`
abbrev pub update : Option ℕ → ℕ → (Row → Row) → Table → Table
update user id f [] = []
update user id f (r ∷ rs) = (if r.id == id && reaches user r then f r else r) ∷ update user id f rs

-- `UpdateStatus` and `UpdatePublicURL`
abbrev pub update_status : Option ℕ → ℕ → AppStatus → Table → Table
update_status user id status = update user id (λ r. record r { status = status })

abbrev pub update_public_url : Option ℕ → ℕ → List ℕ → Table → Table
update_public_url user id url = update user id (λ r. record r { public_url = url })

-- `Delete`
abbrev pub delete : Option ℕ → ℕ → Table → Table
delete user id [] = []
delete user id (r ∷ rs) =
    let rest = delete user id rs in if r.id == id && reaches user r then rest else r ∷ rest

-- `appNameRE`, `^[a-z0-9]([a-z0-9-]{0,61}[a-z0-9])?$`
abbrev pub is_alnum : ℕ → Bool
is_alnum c = is_lower c || is_digit c

abbrev pub matches_end : List ℕ → Bool
matches_end [] = false
matches_end (c ∷ []) = is_alnum c
matches_end (c ∷ d ∷ s) = (is_alnum c || c == b'-') && matches_end (d ∷ s)

abbrev pub matches_rest : List ℕ → Bool
matches_rest [] = true
matches_rest (c ∷ s) = leb (length (c ∷ s)) 62 && matches_end (c ∷ s)

abbrev pub matches_name : List ℕ → Bool
matches_name [] = false
matches_name (c ∷ s) = is_alnum c && matches_rest s

-- Whether the quota applies to the request.
abbrev pub is_limited : ℕ → Option ℕ → Bool
is_limited maximum none = false
is_limited maximum (some user) = ltb 0 maximum

-- `Create` of the service, under its mutex. `counts` and `writes` tell whether the store answers.
pub create : ℕ → Bool → Bool → Option ℕ → ℕ → List ℕ → Table → Result Error Table
create maximum counts writes user id name t = do
  guard (matches_name name) Error.name_invalid
  guard (not (is_limited maximum user) || counts) Error.store_failed
  guard (not (is_limited maximum user) || ltb (count user t) maximum) Error.capacity_exceeded
  guard writes Error.store_failed
  insert user id name t

pub data Op : Type 0 where
  creates : ℕ → List ℕ → Bool → Bool → Op
  deletes : ℕ → Op
  sets_status : ℕ → AppStatus → Op
  sets_url : ℕ → List ℕ → Op

abbrev pub after : Table → Result Error Table → Table
after t (ok t') = t'
after t (err e) = t

-- A request of a user
pub step : ℕ → Option ℕ → Op → Table → Table
unfolding create
step maximum user (creates id name counts writes) t =
    after t (create maximum counts writes user id name t)
step maximum user (deletes id) t = delete user id t
step maximum user (sets_status id status) t = update_status user id status t
step maximum user (sets_url id url) t = update_public_url user id url t

pub run : ℕ → List (Option ℕ × Op) → Table → Table
unfolding step
run maximum [] t = t
run maximum ((user, op) ∷ ops) t = run maximum ops (step maximum user op t)

abbrev pub is_running : AppStatus → Bool
is_running AppStatus.running = true
is_running _ = false

pub record Snapshot : Type 0 where
  pub apps_total : ℕ
  pub apps_running : ℕ
  pub maximum : ℕ
  pub builds : BuildQueueStats

abbrev pub running_of : List Row → ℕ
running_of [] = 0
running_of (r ∷ rs) = let rest = running_of rs in if is_running r.status then suc rest else rest

-- `CapacityService.Get`, with the answer of the build queue
pub capacity : ℕ → BuildQueueStats → Option ℕ → Table → Snapshot
capacity maximum builds user t = record {
  apps_total = length (list user t);
  apps_running = running_of (list user t);
  maximum = maximum;
  builds = builds;
}
