-- ===== src/WireLog/Requests.antt =====
-- The middlewares of main.go, and the values of a context of global/auth.go that they set: each request
-- is logged on the terminal, and carries the key that it is logged in with.
use croissant.Base.{
  ℕ, false, Option, none, some, List, [], ◌∷◌, String, ◌==◌, string_eq, if◌then◌else◌, ◌≡◌, refl,
  ◌++◌, inl, inr, Bool-cases,
}
use croissant.Nostr.{NostrLib, Filter, PubKey}
use croissant.EventLog.{Format}
use croissant.WireLog.{Envelope, log_http_request, log_http_upgrade}
use mathlib.Core.List.{reverse, reverse_aux}

-- What a request is logged by.
pub record Request : Type 0 where
  pub upgrade : String
  pub remote_addr : String
  pub method : String
  pub path : String

-- The codes that reach the ResponseWriter inside, the last first.
pub record StatusRecorder : Type 0 where
  pub response_writer : List ℕ
  pub status : ℕ

unfoldable pub write_header : ℕ → StatusRecorder → StatusRecorder
write_header code sr = record { response_writer = code ∷ sr.response_writer; status = code }

-- A handler is seen by the codes that it passes to WriteHeader, in their order.
unfoldable pub serve_http : List ℕ → StatusRecorder → StatusRecorder
unfolding write_header
serve_http [] rec = rec
serve_http (code ∷ codes) rec = serve_http codes (write_header code rec)

abbrev pub recorder : StatusRecorder
recorder = record { response_writer = []; status = 200 }

-- The value that the context of a request has under the key of the logged user; a none is no value.
abbrev pub Context : Type 0
Context = Option PubKey

unfoldable pub with_logged_user : Context → PubKey → Context
with_logged_user ctx pub_key = some pub_key

-- A nil context is a none; ZeroPK is 0.
unfoldable pub logged_user_from_context : Option Context → PubKey
logged_user_from_context none = 0
logged_user_from_context (some none) = 0
logged_user_from_context (some (some pub_key)) = pub_key

abbrev pub key_of : Option PubKey → PubKey
key_of none = 0
key_of (some pub_key) = pub_key

-- loggedUserMiddleware: the context that the next handler gets, from what GetLoggedUser answers.
unfoldable pub logged_user_middleware : Option PubKey → Context → Context
unfolding with_logged_user
logged_user_middleware user ctx = with_logged_user ctx (key_of user)

module _ (lib : NostrLib) (format : Format) (pad : ℕ → String → String)
    (marshal_json : Filter → String) (parse_message : String → Option Envelope) where
  -- requestLogMiddleware: the line, and the codes that reach the ResponseWriter of the server. The
  -- handler of an upgrade is given that one itself.
  unfoldable pub request_log_middleware : Request → List ℕ → String × List ℕ
  unfolding serve_http log_http_request log_http_upgrade
  request_log_middleware r codes =
      let rec = serve_http codes recorder in
      if r.upgrade == "websocket"
      then (
        log_http_upgrade lib format pad marshal_json parse_message r.remote_addr r.path,
        reverse codes,
      )
      else (
        log_http_request lib format pad marshal_json parse_message r.remote_addr r.method r.path
            rec.status,
        rec.response_writer,
      )

serve_http-response_writer :
    (codes : List ℕ) (rec : StatusRecorder)
    → (serve_http codes rec).response_writer ≡ reverse_aux codes rec.response_writer
unfolding serve_http write_header
serve_http-response_writer [] rec = refl
serve_http-response_writer (code ∷ codes) rec =
    serve_http-response_writer codes (write_header code rec)

serve_http-status :
    (codes : List ℕ) (code : ℕ) (rec : StatusRecorder)
    → (serve_http (codes ++ (code ∷ [])) rec).status ≡ code
unfolding serve_http write_header
serve_http-status [] code rec = refl
serve_http-status (c ∷ codes) code rec = serve_http-status codes code (write_header c rec)

module _ (lib : NostrLib) (format : Format) (pad : ℕ → String → String)
    (marshal_json : Filter → String) (parse_message : String → Option Envelope) where
  -- Logging changes nothing of what is answered: each code that the handler writes reaches the server's
  -- ResponseWriter, in the same order. Where it is no upgrade, the line shows the last of the codes.
  request_log_middleware_lem :
      (r : Request) (codes : List ℕ) (code : ℕ)
      → ((request_log_middleware lib format pad marshal_json parse_message r codes).1
          ≡ reverse codes)
        × ((r.upgrade == "websocket") ≡ false
            → (request_log_middleware lib format pad marshal_json parse_message r
                (codes ++ (code ∷ []))).0
              ≡ log_http_request lib format pad marshal_json parse_message r.remote_addr r.method
                  r.path code)
  unfolding request_log_middleware
  request_log_middleware_lem r codes code = (
    elim (Bool-cases (r.upgrade == "websocket")) [
      | inl upgrades ↦ rw upgrades refl
      | inr plain ↦ rw plain (serve_http-response_writer codes recorder)
    ],
    λ plain. rw (plain, serve_http-status codes code recorder) refl,
  )
