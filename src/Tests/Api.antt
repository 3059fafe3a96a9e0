-- ===== src/Tests/Api.antt =====
-- The guards of the API and the administration of accounts at concrete inputs.
use kubby.Prelude.{
  ℕ, ◌<◌, ◌≡◌, refl, true, false, ◌&&◌, Option, none, some, [], ◌∷◌, ◌++◌, arith, ◌==◌, codes, Text,
  text_eq, is_space, trim_left, trim_space,
}
use kubby.Rbac.{can, cluster_write}
use kubby.Store.Models.{is_valid}
use kubby.Store.Db.{find}
use kubby.Store.Users
use kubby.Store.Users.{by_id}
use kubby.Store.Sessions.{by_token_hash, has_hash}
use kubby.Auth.Service.Login.{resolve}
use kubby.HttpApi.UserAdmin
use kubby.HttpApi.UserAdmin.LastAdmin.{active_admins, update-active_admins}
use kubby.HttpApi.RealIp.{
  Net, contains_ip, closest_untrusted, client_from_headers, real_ip, peer_ip, split_commas,
}
use kubby.HttpApi.RealIp
use kubby.HttpApi.RealIp.Spoofing.{client_from_headers-spoofed}
use kubby.HttpApi.Guards.{
  pass, other_method, is_mutating, Urls, Request, csrf_protect, require_writable,
  require_permission, require_auth, guarded,
}
use kubby.HttpApi.Guards.Passing.{guarded_sound}
use kubby.Tests.Data.{primitives, settings, at_time, db, guest, session}

abbrev demotion : UserAdmin.UpdateRequest
demotion = record { role = some "user"; is_active = none; unblock = none }

update-active_admins_example : 0 < active_admins (UserAdmin.update 2 1 demotion 10 db).1.users
update-active_admins_example = update-active_admins 2 1 demotion 10 db (ground arith) (omega arith)

-- One letter is an address, and the network of a letter holds that letter alone.
abbrev letter : Text → Option ℕ
letter (c ∷ []) = some c
letter _ = none

abbrev net : Net ℕ ℕ
net = record {
  parse_ip = letter;
  to_string = λ c. c ∷ [];
  is_v4 = λ c. true;
  parse_cidr = λ s. none;
  masked = λ c bits. c;
  in_network = λ network c. network == c;
  split_host_port = λ s. none;
  join_host_port = λ host port. host ++ b':' ∷ port;
}

abbrev behind_proxy : RealIp.Request
behind_proxy = record { remote_addr = codes "p"; x_forwarded_for = codes "c, p"; x_real_ip = [] }

client_from_headers-spoofed_example :
    client_from_headers net
      (record behind_proxy { x_forwarded_for = codes "x,y" ++ b',' ∷ codes "c, p" })
      (b'p' ∷ [])
    ≡ some b'c'
unfolding closest_untrusted split_commas contains_ip trim_space trim_left is_space
client_from_headers-spoofed_example =
    client_from_headers-spoofed net (b'p' ∷ []) behind_proxy (codes "x,y") (codes "c, p")
      {ip = b'c'} refl

abbrev urls : Urls
urls = record { parse = λ s. none; equal_fold = text_eq }

abbrev post : Request
post = record {
  method = other_method (codes "POST");
  origin = [];
  session_cookie = "token";
  csrf_cookie = codes "t";
  csrf_header = codes "t";
}

guarded_sound_example :
    (find (has_hash "token") db.sessions ≡ some (session 7 2 "token"))
    × ((session 7 2 "token").revoked_at ≡ none)
    × (10 < 100)
    × (true ≡ true)
    × (guest.is_active ≡ true)
    × (find (Users.has_id 2) db.users ≡ some guest)
    × (can guest.role cluster_write ≡ true)
    × ((false && is_mutating post.method) ≡ false)
    × (csrf_protect urls none [] post ≡ pass tt)
unfolding guarded csrf_protect is_mutating text_eq require_writable require_auth require_permission
    can resolve by_token_hash by_id is_valid
guarded_sound_example =
    guarded_sound primitives urls settings (at_time 10) none [] false cluster_write post db
      {s = session 7 2 "token"} {u = guest} refl
