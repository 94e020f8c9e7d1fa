-- ===== src/Http/Servlet/Runs.antt =====
-- Runs of the servlets and the server of libcocao/http.
use libcocao.Base.{
  ℕ, ◌≡◌, ◌≤◌, ◌⊎◌, inr, refl, Bool, true, false, not, ◌||◌, Option, none, some, List, [], ◌∷◌, All,
  length, length-replicate, replicate, if◌then◌else◌, arith,
}
use libcocao.FdManager.{pos}
use libcocao.Log.{codes, text_eq}
use libcocao.Http.Request.{HttpRequest, request_new}
use libcocao.Http.Response.{response_new, response_header, set_headers}
use libcocao.Http.Servlet.{
  Servlet, Creator, hold, get, ServletDispatch, dispatch_new, dispatch_handle, function_servlet,
  not_found_servlet, not_found_content, set_default, creator_of, matching, del_glob_servlet,
  get_glob_servlet, get_matched_servlet,
}
use libcocao.Http.Servlet.Globs.{Unique}
use libcocao.Http.Servlet.Delete.{ends_with, FirstMatch}
use libcocao.Http.Servlet.Dispatch.{
  Change, add_exact, add_glob, del_glob, SoundResult, IsWf, changes-IsWf, del_glob_servlet_lem,
}
use libcocao.Http.Servlet.Matched.{get_matched_servlet_lem, not_found_lem}
use libcocao.Http.Server.{Parser, nothing, HttpServer, recv_request, serve}
use libcocao.Http.Server.Answers.{IsBounded, server_answers_nothing}

-- A servlet that answers with its own text, a pattern that is every uri, and a session without state.
abbrev echo : Servlet Unit
echo = function_servlet (λ q r s. (pos 0, record r { body = codes "echo" }, s))

abbrev all_uris : List ℕ → List ℕ → Bool
all_uris pattern uri = text_eq pattern (codes "*")

abbrev dispatch : ServletDispatch Unit
dispatch = record {
  datas = (codes "/y", hold (some echo)) ∷ [];
  globs = (codes "/z", hold none) ∷ (codes "*", hold (some echo)) ∷ [];
  default = none;
}

dispatch-IsWf : IsWf dispatch
unfolding Unique IsWf creator_of
dispatch-IsWf = ((refl, tt), (refl, (refl, tt)))

abbrev some_changes : List (Change Unit)
some_changes =
    add_glob (codes "*") (hold none)
    ∷ add_exact (codes "/y") (hold none)
    ∷ del_glob (codes "/z")
    ∷ []

changes-IsWf_example : SoundResult some_changes dispatch_new
changes-IsWf_example = changes-IsWf some_changes

del_glob_servlet_lem_example :
    ((ends_with (codes "/z") dispatch.globs ≡ true)
      × (del_glob_servlet (codes "/z") dispatch ≡ none))
    ⊎ ((ends_with (codes "/z") dispatch.globs ≡ false)
        × ((e : ServletDispatch Unit) × (del_glob_servlet (codes "/z") dispatch ≡ some e)
            × IsWf e
            × (e.datas ≡ dispatch.datas)
            × (get_glob_servlet (codes "*") e ≡ (
                if text_eq (codes "/z") (codes "*")
                then none
                else get_glob_servlet (codes "*") dispatch))))
del_glob_servlet_lem_example = del_glob_servlet_lem (codes "/z") (codes "*") dispatch dispatch-IsWf

get_matched_servlet_lem_example :
    ((c : Creator Unit) × (creator_of (codes "/q") dispatch.datas ≡ some c)
      × (get_matched_servlet all_uris (codes "/q") dispatch ≡ get c))
    ⊎ ((creator_of (codes "/q") dispatch.datas ≡ none)
        × ((c : Creator Unit) × FirstMatch all_uris (codes "/q") dispatch.globs c
            × (get_matched_servlet all_uris (codes "/q") dispatch ≡ get c)))
    ⊎ ((creator_of (codes "/q") dispatch.datas ≡ none)
        × All (λ q. all_uris q.0 (codes "/q") ≡ false) dispatch.globs
        × (get_matched_servlet all_uris (codes "/q") dispatch ≡ dispatch.default))
get_matched_servlet_lem_example = get_matched_servlet_lem all_uris (codes "/q") dispatch

abbrev request : HttpRequest
request = request_new 1 17 false

-- No pattern matches.
abbrev no_uri : List ℕ → List ℕ → Bool
no_uri pattern uri = false

not_there : creator_of request.path dispatch.datas ≡ none
unfolding creator_of request_new
not_there = refl

no_match : matching no_uri request.path dispatch.globs ≡ none
unfolding matching
no_match = refl

not_found_lem_example :
    let (result, answer, after) =
      dispatch_handle no_uri
        (set_default (some (not_found_servlet (codes "cocao"))) dispatch)
        request
        (set_headers (codes "Server") (codes "cocao") (response_new 17 false))
        tt in
    (result ≡ pos 0)
    × (answer.status ≡ 404)
    × (answer.body ≡ not_found_content (codes "cocao"))
    × (response_header (codes "server") [] answer ≡ codes "sylar/1.1.1")
    × (response_header (codes "Content-Type") [] answer
        ≡ response_header (codes "Content-Type") [] (response_new 17 false))
    × (after ≡ tt)
not_found_lem_example =
    not_found_lem no_uri (codes "cocao") (codes "cocao") dispatch request (response_new 17 false) tt
      not_there no_match

abbrev server : HttpServer Unit
server = record { name = codes "cocao"; is_keepalive = true; dispatch = dispatch }

abbrev last : HttpRequest
last = request_new 1 17 true

goes_on : (not server.is_keepalive || request.close) ≡ false
unfolding request_new
goes_on = refl

closes : (not server.is_keepalive || last.close) ≡ true
unfolding request_new
closes = refl

-- A parser that is content with every text, and a connection whose reads fill the room with `G`.
abbrev parser : Parser Unit
parser = record {
  fresh = tt;
  execute = λ p s. (tt, length s);
  has_error = λ p. false;
  is_finished = λ p. true;
  get_data = λ p. request;
}

abbrev full_read : ℕ → Option (List ℕ)
full_read room = some (replicate room b'G')

full_read-IsBounded :
    (room : ℕ)
    → (full_read room ≡ none) ⊎ ((s : List ℕ) × (full_read room ≡ some s) × (length s ≤ room))
full_read-IsBounded room =
    inr (replicate room b'G', refl, omega (arith, length-replicate {A = ℕ} room b'G'))

server_answers_nothing_example :
    (recv_request parser (full_read ∷ full_read ∷ []) ≡ some (nothing true, full_read ∷ []))
    × (serve all_uris parser server tt 4 (full_read ∷ full_read ∷ []) ≡ some [])
unfolding IsBounded
server_answers_nothing_example =
    server_answers_nothing all_uris parser server tt 3 full_read (full_read ∷ [])
      (full_read-IsBounded, (full_read-IsBounded, tt))
