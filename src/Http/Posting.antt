-- ===== src/Http/Posting.antt =====
-- What the controller receives.
use pingweave.Base.{
  ℕ, zero, suc, ◌+◌, ◌/◌, ◌%◌, ◌^◌, ◌<◌, ◌≡◌, refl, ap, ◌∙◌, ◌≢◌, ◌⊎◌, inl, inr, Bool, true, false,
  ◌&&◌, Option, none, some, List, [], ◌∷◌, ◌++◌, arith, success, failure, ◌==◌, if◌then◌else◌,
  Bool-cases, Option-cases, length, All,
}
use pingweave.Base.Int.{ℤ, pos, negsuc}
use pingweave.Base.Text.{Text, codes, take}
use pingweave.Base.Decimal.{print, print_loop}
use pingweave.Ini.{ControllerInfo}
use pingweave.Ini.File.{Line, IsLine, file_of}
use pingweave.Ini.Params.{said, get_controller_info_from_ini_written}
use pingweave.Http.{
  HttpCalls, crlf, print_int, to_port, request, connected, send_message_to_http_server,
  message_to_http_server,
}

-- The reader's side: the text behind the first empty line.
abbrev pub is_blank_line : Text → Bool
is_blank_line (a ∷ b ∷ c ∷ d ∷ rest) = (a == 13) && ((b == 10) && ((c == 13) && (d == 10)))
is_blank_line short = false

abbrev pub skip : ℕ → Text → Text
skip zero s = s
skip (suc n) [] = []
skip (suc n) (c ∷ cs) = skip n cs

abbrev pub body_of : Text → Text
body_of [] = []
body_of (c ∷ cs) = let rest = body_of cs in if is_blank_line (c ∷ cs) then skip 3 cs else rest

abbrev pub IsHeader : Text → Type 0
IsHeader = All (λ c. (c == 13) ≡ false)

not_blank : (c : ℕ) (cs : Text) → (c == 13) ≡ false → is_blank_line (c ∷ cs) ≡ false
not_blank c [] h = refl
not_blank c (a ∷ []) h = refl
not_blank c (a ∷ b ∷ []) h = refl
not_blank c (a ∷ b ∷ d ∷ cs) h = rw h refl

body_of-append : (l t : Text) → IsHeader l → body_of (l ++ t) ≡ body_of t
body_of-append [] t h = refl
body_of-append (c ∷ l) t (h, hs) = rw (not_blank c (l ++ t) h) (body_of-append l t hs)

not_blank_third : (c : ℕ) (cs : Text) → (c == 13) ≡ false → is_blank_line (13 ∷ 10 ∷ c ∷ cs) ≡ false
not_blank_third c [] h = refl
not_blank_third c (d ∷ cs) h = rw h refl

-- A line break and a line that is not empty.
body_of-line :
    (line t : Text) → IsHeader line → 0 < length line → body_of (crlf ++ (line ++ t)) ≡ body_of t
body_of-line [] t h filled = absurd (omega arith)
body_of-line (c ∷ l) t (h, hs) filled =
    rw (not_blank_third c (l ++ t) h, not_blank 10 (c ∷ (l ++ t)) refl)
      (body_of-append (c ∷ l) t (h, hs))

body_of-crlf : (message : Text) → body_of (crlf ++ (crlf ++ message)) ≡ message
body_of-crlf message = refl

IsHeader-append : (s t : Text) → IsHeader s → IsHeader t → IsHeader (s ++ t)
IsHeader-append [] t h k = k
IsHeader-append (c ∷ s) t (h, hs) k = (h, IsHeader-append s t hs k)

print_loop-IsHeader : (fuel n : ℕ) (out : Text) → IsHeader out → IsHeader (print_loop fuel n out)
print_loop-IsHeader zero n out h = h
print_loop-IsHeader (suc fuel) n out h = elim (Bool-cases (n == 0)) [
  | inl b ↦ rw b h
  | inr b ↦ rw b (print_loop-IsHeader fuel (n / 10) ((b'0' + n % 10) ∷ out) (ground arith, h))
]

print-IsHeader : (n : ℕ) → IsHeader (print n)
unfolding print
print-IsHeader n = elim (Bool-cases (n == 0)) [
  | inl b ↦ rw b (refl, tt)
  | inr b ↦ rw b (print_loop-IsHeader n n [] tt)
]

print_int-IsHeader : (n : ℤ) → IsHeader (print_int n)
print_int-IsHeader (pos n) = print-IsHeader n
print_int-IsHeader (negsuc n) = (refl, print-IsHeader (n + 1))

connected_lem :
    (calls : HttpCalls) (o : Option ℕ) (port : ℕ) (text : Text)
    → let r = connected calls o port text in
      (r.is_open ≡ false)
      × (((r.result ≡ failure) × (r.wire ≡ []))
          ⊎ ((r.result ≡ success)
              × ((a : ℕ) × (n : ℕ) × (o ≡ some a)
                  × (r.peer ≡ some (a, port))
                  × (calls.sent ≡ some n)
                  × (r.wire ≡ take n text))))
connected_lem calls none port text = (refl, inl (refl, refl))
connected_lem calls (some a) port text = elim (Bool-cases calls.connect_ok) [
  | inr b ↦ rw b (refl, inl (refl, refl))
  | inl b ↦ elim (Option-cases calls.sent) [
    | inl e ↦ rw (b, e) (refl, inl (refl, refl))
    | inr (n, e) ↦ rw (b, e) (refl, inr (refl, (a, n, refl, refl, refl, refl)))
  ]
]

body_of-request :
    (ip : Text) (port : ℤ) (message api : Text)
    → IsHeader ip
    → IsHeader api
    → body_of (request ip port message api) ≡ message
unfolding request
body_of-request ip port message api h k =
    let end = crlf ++ (crlf ++ message) in
    let size = codes "Content-Length: " ++ print (length message) in
    let host = codes "Host: " ++ (ip ++ (b':' ∷ print_int port)) in
    let kind = codes "Content-Type: text/plain" in
    let first = codes "POST " ++ (api ++ codes " HTTP/1.1") in
    let first_is : IsHeader first =
      IsHeader-append (codes "POST ") (api ++ codes " HTTP/1.1") (ground arith)
        (IsHeader-append api (codes " HTTP/1.1") k (ground arith)) in
    let host_is : IsHeader host =
      IsHeader-append (codes "Host: ") (ip ++ (b':' ∷ print_int port)) (ground arith)
        (IsHeader-append ip (b':' ∷ print_int port) h (refl, print_int-IsHeader port)) in
    let size_is : IsHeader size =
      IsHeader-append (codes "Content-Length: ") (print (length message)) (ground arith)
        (print-IsHeader (length message)) in
    body_of-append first (crlf ++ (host ++ (crlf ++ (kind ++ (crlf ++ (size ++ end)))))) first_is
    ∙ body_of-line host (crlf ++ (kind ++ (crlf ++ (size ++ end)))) host_is (omega arith)
    ∙ body_of-line kind (crlf ++ (size ++ end)) (ground arith) (omega arith)
    ∙ body_of-line size end size_is (omega arith)

-- Every socket that is opened is closed again, whatever the calls answer; the result is success
-- exactly if the controller was reached and `send` took at least part of the request.
pub send_message_to_http_server_lem :
    (inet_pton : Text → Option ℕ) (calls : HttpCalls) (ip : Text) (port : ℤ) (message api : Text)
    → let r = send_message_to_http_server inet_pton calls ip port message api in
      (r.is_open ≡ false)
      × (((r.result ≡ failure) × (r.wire ≡ []))
          ⊎ ((r.result ≡ success)
              × ((a : ℕ) × (n : ℕ) × (inet_pton ip ≡ some a)
                  × (r.peer ≡ some (a, to_port port))
                  × (calls.sent ≡ some n)
                  × (r.wire ≡ take n (request ip port message api)))))
unfolding send_message_to_http_server
send_message_to_http_server_lem inet_pton calls ip port message api =
    elim (Bool-cases (calls.socket_ok && calls.set_timeout_ok)) [
      | inl b ↦
          rw b (connected_lem calls (inet_pton ip) (to_port port) (request ip port message api))
      | inr b ↦ rw b (refl, inl (refl, refl))
    ]

-- No call fails, and `send` takes n bytes.
abbrev pub AllSucceed : HttpCalls → ℕ → Type 0
AllSucceed calls n =
    (calls.socket_ok ≡ true)
    × (calls.set_timeout_ok ≡ true)
    × (calls.connect_ok ≡ true)
    × (calls.sent ≡ some n)

take_all : (s : Text) → take (length s) s ≡ s
take_all [] = refl
take_all (c ∷ s) = ap (◌∷◌ c) (take_all s)

-- With a configuration file that names the controller, and calls that succeed and take the whole
-- request, the controller's address and port receive a request whose body, behind the first empty
-- line, is the message.
pub message_to_http_server_delivers :
    (inet_pton : Text → Option ℕ) (calls : HttpCalls) (ls : List Line) (unset : ControllerInfo)
    (message api host : Text) (n a : ℕ)
    → message ≢ []
    → All IsLine ls
    → said (codes "controller") (codes "host") ls ≡ some host
    → host ≢ []
    → IsHeader host
    → IsHeader api
    → said (codes "controller") (codes "collect_port_http") ls ≡ some (print n)
    → n < 2 ^ 16
    → inet_pton host ≡ some a
    → AllSucceed calls (length (request host (pos n) message api))
    → let r = message_to_http_server inet_pton calls (some (file_of ls)) unset message api in
      (r.result ≡ success) × (r.peer ≡ some (a, n)) × (body_of r.wire ≡ message)
unfolding message_to_http_server send_message_to_http_server
message_to_http_server_delivers inet_pton calls ls unset [] api host n a m h at_host given ip_ok
      api_ok at_port small pton (s1, s2, s3, whole) =
    absurd (m refl)
message_to_http_server_delivers inet_pton calls ls unset (c ∷ cs) api host n a m h at_host given
      ip_ok api_ok at_port small pton (s1, s2, s3, whole) =
    let info =
      get_controller_info_from_ini_written ls unset host n h at_host given at_port (omega arith) in
    let low : n % 2 ^ 16 ≡ n = omega arith in
    rw (info, s1, s2, pton, s3, whole, low)
      (
        refl,
        refl,
        ap body_of (take_all (request host (pos n) (c ∷ cs) api))
            ∙ body_of-request host (pos n) (c ∷ cs) api ip_ok api_ok,
      )
