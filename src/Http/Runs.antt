-- ===== src/Http/Runs.antt =====
-- Runs of the HTTP part, libcocao/http.
use libcocao.Base.{
  ℕ, ◌+◌, ◌%◌, ◌≡◌, refl, true, false, none, some, List, [], ◌∷◌, ◌++◌, All, if◌then◌else◌, arith,
}
use libcocao.Log.{codes}
use libcocao.Http.{same_key, Headers, Methods, find, put, insert, erase, http_method_to_string}
use libcocao.Http.Maps.{Sorted, maps_lem}
use libcocao.Http.Request.{HttpRequest, get_param, get_header, strcasestr, form_type}
use libcocao.Http.Request.Params.{Fits, query_of, decoded, first_value, get_param_lem}
use libcocao.Http.Response.{HttpResponse}
use libcocao.Http.Text.{http_status_to_string, request_text, response_text}
use libcocao.Http.Text.Reader.{NoCr, IsField, read_message}
use libcocao.Http.Text.Lines.{lacks, lacks-All}
use libcocao.Http.Text.Requests.{IsSendable}
use libcocao.Http.Text.Wanted.{start_line, sent_fields, request_text_lem}
use libcocao.Http.Text.Responses.{IsAnswer, answer_line, read_message-response_text}
use libcocao.Http.Text.Lines.{cookie_fields, body_fields}

-- Numbers by their last digit.
abbrev show : ℕ → List ℕ
show n = (n % 10 + 48) ∷ []

show-NoCr : (n : ℕ) → NoCr (show n)
show-NoCr n = (ground arith, tt)

abbrev methods : Methods
methods = codes "DELETE" ∷ codes "GET" ∷ []

abbrev host : Headers
host = (codes "Host", codes "a.b") ∷ []

host-IsField : All IsField host
unfolding lacks
host-IsField = (
  record {
    nonempty = (b'H', codes "ost", refl);
    no_colon = lacks-All b':' (codes "Host") refl;
    key_in_line = lacks-All 13 (codes "Host") refl;
    value_in_line = lacks-All 13 (codes "a.b") refl;
  },
  tt,
)

abbrev pairs : Headers
pairs = (codes "a", codes "1") ∷ (codes "b", codes "2") ∷ []

pairs-Fits : All (Fits b'&') pairs
unfolding lacks
pairs-Fits = (
  (lacks-All b'=' (codes "a") refl, lacks-All b'&' (codes "1") refl),
  ((lacks-All b'=' (codes "b") refl, lacks-All b'&' (codes "2") refl), tt),
)

-- `GET /x?a=1&b=2` with a body of two characters.
abbrev request : HttpRequest
request = record {
  method = 1;
  version = 17;
  close = false;
  websocket = false;
  query_parsed = false;
  body_parsed = false;
  cookies_parsed = false;
  path = codes "/x";
  query = codes "a=1&b=2";
  fragment = [];
  body = codes "hi";
  headers = host;
  params = [];
  cookies = [];
}

host-Sorted : Sorted host
unfolding Sorted
host-Sorted = (tt, tt)

maps_lem_example :
    Sorted (put (codes "HOST") (codes "c") host)
    × Sorted (insert (codes "HOST") (codes "c") host)
    × Sorted (erase (codes "HOST") host)
    × (find (codes "host") (put (codes "HOST") (codes "c") host) ≡ (
        if same_key (codes "HOST") (codes "host")
        then some (codes "c")
        else find (codes "host") host))
    × (find (codes "host") (insert (codes "HOST") (codes "c") host) ≡ (
        if same_key (codes "HOST") (codes "host")
        then elim (find (codes "HOST") host) [ none ↦ some (codes "c") | some w ↦ some w ]
        else find (codes "host") host))
    × (find (codes "host") (erase (codes "HOST") host)
        ≡ (if same_key (codes "HOST") (codes "host") then none else find (codes "host") host))
maps_lem_example = maps_lem (codes "host") (codes "HOST") (codes "c") host host-Sorted

-- A query without escapes.
abbrev plain : List ℕ → List ℕ
plain s = s

not_a_form : strcasestr (get_header (codes "content-type") [] request) form_type ≡ false
unfolding strcasestr get_header
not_a_form = refl

same_query : request.query ≡ query_of b'&' pairs
unfolding query_of
same_query = refl

get_param_lem_example :
    let (got, after) = get_param plain (codes "B") (codes "none") request in
    (got ≡ elim (first_value (codes "B") (decoded plain (λ s. s) pairs)) as (λ _. List ℕ) [
      | none ↦ codes "none"
      | some v ↦ v
    ])
    × ((get_param plain (codes "a") [] after).1 ≡ after)
get_param_lem_example =
    get_param_lem plain (codes "B") (codes "none") (codes "a") [] pairs request pairs-Fits
      same_query refl refl refl not_a_form

request-IsSendable : IsSendable show methods request
unfolding lacks http_method_to_string
request-IsSendable = record {
  numbers_in_line = show-NoCr;
  method_in_line = lacks-All 13 (codes "GET") refl;
  path_in_line = lacks-All 13 (codes "/x") refl;
  query_in_line = lacks-All 13 (codes "a=1&b=2") refl;
  fragment_in_line = tt;
  headers_are_fields = host-IsField;
}

request_text_lem_example :
    read_message (request_text show methods request)
    ≡ some (start_line show methods request, sent_fields show request, request.body)
request_text_lem_example = request_text_lem show methods request request-IsSendable

abbrev response : HttpResponse
response = record {
  status = 200;
  version = 17;
  close = true;
  websocket = false;
  body = codes "hi";
  reason = codes "OK";
  headers = host;
  cookies = [];
}

response-IsAnswer : IsAnswer show [] response
unfolding lacks http_status_to_string
response-IsAnswer = record {
  numbers_in_line = show-NoCr;
  status_in_line = lacks-All 13 (codes "<unknown>") refl;
  reason_in_line = lacks-All 13 (codes "OK") refl;
  headers_are_fields = host-IsField;
  cookies_in_line = tt;
}

read_message-response_text_example : read_message (response_text show [] response) ≡ (
    if response.websocket
    then some (
      answer_line show [] response,
      response.headers ++ (cookie_fields response.cookies ++ body_fields show response.body),
      response.body,
    )
    else none)
read_message-response_text_example = read_message-response_text show [] response response-IsAnswer
