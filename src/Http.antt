-- ===== src/Http.antt =====
-- Posting a message to the controller: `send_message_to_http_server` and `message_to_http_server` of
-- src/common.cpp. What the system calls answer is an input, with what `inet_pton` makes of an
-- address.
pub mod Posting
mod Tests
use pingweave.Base.{
  ℕ, zero, suc, ◌+◌, ◌-◌, ◌*◌, ◌/◌, ◌%◌, ◌^◌, ◌≤◌, ◌<◌, bit_or, bit_and, ◌≡◌, refl, sym, ap, ap₂,
  subst, ◌∙◌, ◌≢◌, ◌↔◌, ◌⊎◌, inl, inr, ite, if_pos, if_neg, Bool, true, false, not, ◌&&◌, ◌||◌,
  Option, none, some, List, [], ◌∷◌, ◌++◌, map, foldl, filter, Mem, Nodup, Perm, arith, dec_lt,
  dec_le, ℕ_discrete, u64, u32, success, failure, ltb, leb, ◌==◌, if◌then◌else◌, ltb→lt, lt→ltb,
  leb→le, ==_iff, ==_self, Bool-cases, Option-cases, length, get_elem?, get_or, set, All,
  length-append, length-set, get_or-set_self, get_or-set_ne,
}
use pingweave.Base.Int.{ℤ, pos, negsuc}
use pingweave.Base.Text.{Text, codes, take}
use pingweave.Base.Decimal.{print}
use pingweave.Ini.{ControllerInfo, get_controller_info_from_ini, is_empty}

-- `sent` is the number of bytes that `send` takes, `none` for an error.
pub record HttpCalls : Type 0 where
  pub socket_ok : Bool
  pub set_timeout_ok : Bool
  pub connect_ok : Bool
  pub sent : Option ℕ

-- Where the socket was connected, what it carried, whether it is still open, and the result. A
-- `close` that fails is only logged.
pub record Posted : Type 0 where
  pub peer : Option (ℕ × ℕ)
  pub wire : Text
  pub is_open : Bool
  pub result : Bool

abbrev pub crlf : Text
crlf = 13 ∷ 10 ∷ []

abbrev pub print_int : ℤ → Text
print_int (pos n) = print n
print_int (negsuc n) = b'-' ∷ print (n + 1)

-- The conversion to `uint16_t` in `htons`.
abbrev pub to_port : ℤ → ℕ
to_port (pos n) = n % 2 ^ 16
to_port (negsuc n) = 2 ^ 16 - 1 - n % 2 ^ 16

pub request : Text → ℤ → Text → Text → Text
request server_ip server_port message req_api =
    (codes "POST " ++ (req_api ++ codes " HTTP/1.1"))
    ++ (crlf
        ++ ((codes "Host: " ++ (server_ip ++ (b':' ∷ print_int server_port)))
            ++ (crlf
                ++ (codes "Content-Type: text/plain"
                    ++ (crlf
                        ++ ((codes "Content-Length: " ++ print (length message))
                            ++ (crlf ++ (crlf ++ message))))))))

abbrev pub failed : Option (ℕ × ℕ) → Posted
failed peer = record { peer = peer; wire = []; is_open = false; result = failure }

abbrev pub carried : ℕ × ℕ → Text → Option ℕ → Posted
carried peer text none = failed (some peer)
carried peer text (some n) = record {
  peer = some peer;
  wire = take n text;
  is_open = false;
  result = success;
}

abbrev pub connected : HttpCalls → Option ℕ → ℕ → Text → Posted
connected calls none port text = failed none
connected calls (some address) port text =
    if calls.connect_ok then carried (address, port) text calls.sent else failed none

module _ (inet_pton : Text → Option ℕ) where
  pub send_message_to_http_server : HttpCalls → Text → ℤ → Text → Text → Posted
  send_message_to_http_server calls server_ip server_port message req_api =
      if calls.socket_ok && calls.set_timeout_ok
      then connected calls (inet_pton server_ip) (to_port server_port)
          (request server_ip server_port message req_api)
      else failed none

  abbrev pub post_to : HttpCalls → Text → Text → ControllerInfo × Bool → Posted
  post_to calls message req_api (info, found) =
      if found
      then send_message_to_http_server calls info.ip info.port message req_api
      else failed none

  -- `unset` is what the two variables hold before the file is read.
  pub message_to_http_server : HttpCalls → Option Text → ControllerInfo → Text → Text → Posted
  message_to_http_server calls file unset message req_api =
      if is_empty message
      then failed none
      else post_to calls message req_api (get_controller_info_from_ini file unset)
