-- ===== src/Http/Tests.antt =====
-- Instances of the theorems on posted messages.
use pingweave.Base.{ℕ, ◌≡◌, refl, true, Option, some, List, [], ◌∷◌, arith, length}
use pingweave.Base.Int.{pos}
use pingweave.Base.Text.{Text, codes}
use pingweave.Base.Decimal.{print}
use pingweave.Ini.{ControllerInfo, trim}
use pingweave.Ini.File.{Line, header, setting, file_of}
use pingweave.Ini.Params.{said}
use pingweave.Http.{HttpCalls, request, message_to_http_server}
use pingweave.Http.Posting.{body_of, message_to_http_server_delivers}

abbrev config : List Line
config =
    header [] (codes "controller") []
    ∷ setting [] (codes "host") (codes " ") (codes " 10.0.0.9")
    ∷ setting [] (codes "collect_port_http") (codes " ") (codes " 24704")
    ∷ []

abbrev inet_pton : Text → Option ℕ
inet_pton ip = some 0x0900_000a

abbrev unset : ControllerInfo
unset = record { ip = []; port = pos 0 }

abbrev all_taken : HttpCalls
all_taken = record {
  socket_ok = true;
  set_timeout_ok = true;
  connect_ok = true;
  sent = some (length (request (codes "10.0.0.9") (pos 24704) (codes "down") (codes "/alarm")));
}

named :
    (said (codes "controller") (codes "host") config ≡ some (codes "10.0.0.9"))
    × (said (codes "controller") (codes "collect_port_http") config ≡ some (print 24704))
unfolding trim print
named = (refl, refl)

message_to_http_server_delivers_example :
    let r =
      message_to_http_server inet_pton all_taken
        (some (file_of config))
        unset
        (codes "down")
        (codes "/alarm") in
    (r.result ≡ true) × (r.peer ≡ some (0x0900_000a, 24704)) × (body_of r.wire ≡ codes "down")
message_to_http_server_delivers_example =
    message_to_http_server_delivers inet_pton all_taken config unset (codes "down") (codes "/alarm")
      (codes "10.0.0.9") 24704 0x0900_000a (λ e. absurd (cc)) (ground arith) named.0
      (λ e. absurd (cc)) (ground arith) (ground arith) named.1 (omega arith) refl
      (refl, refl, refl, refl)
