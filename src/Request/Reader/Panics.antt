-- ===== src/Request/Reader/Panics.antt =====
-- When `ParseRequestAction` of lmd/request.go panics.
use lmd.Prelude.{◌≡◌, refl, true, false, not, ◌&&◌, [], ◌∷◌, Bytes, codes, drop, arith}
use lmd.Runtime.{Go}
use lmd.Objects.{ObjectsType}
use lmd.Text.{has_prefix}
use lmd.Filter.Parse.Calm.{is_panic}
use lmd.Request.{Request}
use lmd.Request.Reader.{is_command, parse_request_action}

exclusive :
    (line : Bytes)
    → has_prefix line (codes "GET ") ≡ true
    → has_prefix line (codes "COMMAND ") ≡ false
unfolding has_prefix
exclusive [] h = refl
exclusive (c ∷ line) h = ground arith

module _ (go : Go) (o : ObjectsType) where
  -- The first line of a request makes the daemon panic exactly if it starts like a command but has
  -- not the form of one.
  pub parse_request_action-panics :
      (line : Bytes) (req : Request go)
      → is_panic (parse_request_action go o line req)
        ≡ (has_prefix line (codes "COMMAND ") && not (is_command (drop 8 line)))
  unfolding parse_request_action
  parse_request_action-panics line req = ground (arith, exclusive line)
