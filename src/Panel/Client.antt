-- ===== src/Panel/Client.antt =====
-- api/panel/user.go: what the client makes of the panel's answers. The transport of a request is
-- the package `resty`'s; an answer is known by its status and what decoding its body gives.
use kknode.Base.{ℕ, String, Bool, List, [], ◌∷◌, Option, none, some, if◌then◌else◌, leb, ◌==◌}
use kknode.Base.Int.{ℤ}
use kknode.Base.Map.{Map}
use kknode.Base.Result.{Result, ok, err}
use kknode.Panel.{UserInfo, UserTraffic}

pub data ClientError : Type 0 where
  no_response request_failed bad_status bad_body : ClientError

-- The answer to one request, with the error that came beside it.
pub record Reply : Type 0 where
  pub status : ℕ
  pub failed : Bool
  pub etag : String
  -- the objects of the array `users`, `none` where decoding fails
  pub users : Option (List UserInfo)

-- A slice that `append` has filled: `nil` where nothing was appended.
abbrev pub slice_of : List UserInfo → Option (List UserInfo)
slice_of [] = none
slice_of (u ∷ us) = some (u ∷ us)

-- `GetUserList`: the ETag that is kept, and the list, `none` for `nil`.
unfoldable pub get_user_list :
    Option Reply → String → String × Result ClientError (Option (List UserInfo))
get_user_list none etag = (etag, err no_response)
get_user_list (some r) etag =
    if r.status == 304
    then (etag, ok none)
    else if r.failed
    then (etag, err request_failed)
    else if leb 400 r.status
    then (etag, err bad_status)
    else elim r.users [ none ↦ (etag, err bad_body) | some us ↦ (r.etag, ok (slice_of us)) ]

-- `GetUserAlive`: no request is made, and no error returned.
unfoldable pub get_user_alive : Map ℤ ℤ
get_user_alive = []

-- The body of `ReportUserTraffic`, copied from the report.
unfoldable pub push_body : List UserTraffic → List UserTraffic
push_body [] = []
push_body (t ∷ ts) = record { uid = t.uid; upload = t.upload; download = t.download } ∷ push_body ts
