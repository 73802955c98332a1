-- ===== src/Registryclient/Client.antt =====
-- internal/registryclient/client.go: requests to the registry. The answers of HTTP, the escaping of a
use fikua_lab_issuer.Prelude.{Nat-eq}
-- path and the decoding of JSON into the program's types are arguments.
use fikua_lab_issuer.Prelude.{List, String, String-eq, concat, if◌then◌else◌, ℕ, ◌==◌}
use fikua_lab_issuer.Registryclient.Types.{Definition}
use fikua_lab_issuer.Result.Exec.{Result, and_then, err, map_error, plain}
use fikua_lab_issuer.Statuslist.Token.{prefixed}

-- net/http and net/url, as the client uses them
pub record Http : Type 0 where
  -- http.NewRequestWithContext for a URL
  pub new_request : String → Result (Unit {0})
  -- http.Client.Do: the status and the body
  pub send : String → Result (ℕ × String)
  -- url.PathEscape
  pub path_escape : String → String
  -- fmt's `%d`
  pub decimal : ℕ → String

pub record Client : Type 0 where
  pub base_url : String

unfoldable pub about : String → String → String
about path text = concat "registryclient: GET " (concat path (concat ": " text))

module _ (h : Http) where
  -- The body of an answer with the status 200, decoded.
  unfoldable pub decode_answer : {A : Type 0} → (String → Result A) → String → ℕ × String → Result A
  unfolding about
  decode_answer decode path (status, body) =
      if status == 200
      then map_error (prefixed (about path "decoding response: ")) (decode body)
      else err (plain (about path (concat "unexpected status " (h.decimal status))))

  unfoldable pub get_json : {A : Type 0} → (String → Result A) → Client → String → Result A
  unfolding decode_answer
  get_json decode c path = and_then (h.new_request (concat c.base_url path)) λ _.
      and_then (map_error (prefixed (about path "")) (h.send (concat c.base_url path)))
        (decode_answer decode path)

  unfoldable pub list_schemes :
      (String → Result (List Definition)) → Client → Result (List Definition)
  unfolding get_json
  list_schemes decode c = get_json decode c "/api/v1/schemes"

  unfoldable pub get_scheme : (String → Result Definition) → Client → String → Result Definition
  unfolding get_json
  get_scheme decode c id = get_json decode c (concat "/api/v1/schemes/" (h.path_escape id))
