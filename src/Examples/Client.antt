-- ===== src/Examples/Client.antt =====
-- The theorem on the client's requests at a concrete service.
use moadian.Base.{false, Option, none, some, List, [], ◌∷◌, Text, codes, ok}
use moadian.Base.Int.{ℤ}
use moadian.Wire.Json.{Value, str}
use moadian.Client.{HttpRequest, Response, Client}
use moadian.Client.Tokens.{
  IsPaired, nothing, posting, inquiring, informing, call_all, call_all-IsPaired,
}
use moadian.Examples.{whole}

abbrev read_text : Value ℤ → Option Text
read_text (str t) = some t
read_text _ = none

abbrev settings : Client whole (List HttpRequest)
settings = record {
  http = λ r log. (none, log);
  sign = λ bytes. ok bytes;
  is_envelope = λ v. false;
  nonce_response = read_text;
  batch_response = λ v. some [];
  inquiry_result = λ v. none;
  server_information = λ v. some [];
  base_url = codes "https://h";
  client_id = codes "A11216";
  time_to_live = codes "30";
}

-- A service that gives the text "n" to any request.
abbrev obliging : List HttpRequest → HttpRequest → Option (Response ℤ)
obliging log r = some (record { status = 200; body = some (str (codes "n")) })

call_all-IsPaired_example :
    IsPaired whole settings obliging (
      call_all whole settings obliging
        (informing ∷ posting [] ∷ inquiring (codes "r" ∷ []) ∷ [])
        [])
call_all-IsPaired_example =
    call_all-IsPaired whole settings obliging
      (informing ∷ posting [] ∷ inquiring (codes "r" ∷ []) ∷ []) [] nothing
