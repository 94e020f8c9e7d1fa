-- ===== src/Http/Servlet/Matched.antt =====
-- The servlet that getMatchedServlet, libcocao/http/servlet.cc, gives for a uri, and the answer of a dispatch.
use libcocao.Base.{
  ◌≡◌, ℕ, refl, ap, ◌∙◌, ◌⊎◌, inl, inr, Bool, false, Option, none, some, List, [], ◌∷◌,
  if◌then◌else◌, All, Bool-cases, Option-cases,
}
use libcocao.FdManager.{pos}
use libcocao.Log.{text_eq, codes}
use libcocao.Http.{same_key, Headers, find, put, get_or}
use libcocao.Http.Maps.{find-put}
use libcocao.Http.Request.{HttpRequest}
use libcocao.Http.Response.{HttpResponse, response_header, set_headers, set_body, set_status}
use libcocao.Http.Servlet.{
  Servlet, Creator, ServletDispatch, get, creator_of, erase_creator, matching, not_found_content,
  not_found_servlet, add_glob_servlet_creator, set_default, get_glob_servlet, get_matched_servlet,
  dispatch_handle,
}
use libcocao.Http.Servlet.Globs.{creator_of-erase, creator_of-append}
use libcocao.Http.Servlet.Delete.{FirstMatch, matching-cases, matching-append}
use libcocao.Http.Servlet.Dispatch.{IsWf}

-- The headers of the answer to a path without a servlet.
not_found_headers : List ℕ → Headers → Headers
not_found_headers server m =
    put (codes "Contect-Type") (codes "text/html")
      (put (codes "server") (codes "sylar/1.1.1") (put (codes "Server") server m))

found_server :
    (server : List ℕ) (m : Headers)
    → find (codes "server") (not_found_headers server m) ≡ some (codes "sylar/1.1.1")
unfolding same_key not_found_headers
found_server server m =
    find-put (codes "server") (codes "Contect-Type") (codes "text/html") _
    ∙ find-put (codes "server") (codes "server") (codes "sylar/1.1.1") _

kept_type :
    (server : List ℕ) (m : Headers)
    → find (codes "Content-Type") (not_found_headers server m) ≡ find (codes "Content-Type") m
unfolding same_key not_found_headers
kept_type server m =
    find-put (codes "Content-Type") (codes "Contect-Type") (codes "text/html") _
    ∙ find-put (codes "Content-Type") (codes "server") (codes "sylar/1.1.1") _
    ∙ find-put (codes "Content-Type") (codes "Server") server m

-- What getHeader makes of a search.
abbrev answer_or : Option (List ℕ) → List ℕ
answer_or o = elim o [ none ↦ [] | some v ↦ v ]

module _ {S : Type 0} (fnmatch : List ℕ → List ℕ → Bool) where
  -- getMatchedServlet gives the servlet with exactly that uri, else that of the first pattern in m_globs that
  -- matches it, and else the default.
  pub get_matched_servlet_lem :
      (uri : List ℕ) (d : ServletDispatch S)
      → ((c : Creator S) × (creator_of uri d.datas ≡ some c)
          × (get_matched_servlet fnmatch uri d ≡ get c))
        ⊎ ((creator_of uri d.datas ≡ none)
            × ((c : Creator S) × FirstMatch fnmatch uri d.globs c
                × (get_matched_servlet fnmatch uri d ≡ get c)))
        ⊎ ((creator_of uri d.datas ≡ none)
            × All (λ q. fnmatch q.0 uri ≡ false) d.globs
            × (get_matched_servlet fnmatch uri d ≡ d.default))
  unfolding get_matched_servlet
  get_matched_servlet_lem uri d = elim (Option-cases (creator_of uri d.datas)) [
    | inr (c, e) ↦ inl (c, e, rw (e, get_matched_servlet) refl)
    | inl e ↦ elim (matching-cases fnmatch uri d.globs) [
      | inl (f, h) ↦ inr (inr (e, h, rw (e, f, get_matched_servlet) refl))
      | inr (c, f, h) ↦ inr (inl (e, (c, h, rw (e, f, get_matched_servlet) refl)))
    ]
  ]

  -- addGlobServletCreator, in a dispatch where no uri stands twice: getGlobServlet gives the new servlet for the
  -- pattern and leaves the others, and for a uri without a servlet of its own the other patterns that match it
  -- go before the new one, even if the pattern was there before.
  pub add_glob_servlet_lem :
      (p v : List ℕ) (c : Creator S) (d : ServletDispatch S)
      → IsWf d
      → creator_of v d.datas ≡ none
      → (get_glob_servlet v (add_glob_servlet_creator p c d)
          ≡ (if text_eq p v then get c else get_glob_servlet v d))
        × (get_matched_servlet fnmatch v (add_glob_servlet_creator p c d)
            ≡ elim (matching fnmatch v (erase_creator p d.globs)) as (λ _. Option (Servlet S)) [
              | some old ↦ get old
              | none ↦ if fnmatch p v then get c else d.default
            ])
  unfolding get_glob_servlet add_glob_servlet_creator get_matched_servlet IsWf matching
  add_glob_servlet_lem p v c d (h, g) n =
      let others = erase_creator p d.globs in
      let appended = creator_of-append v p c others in
      let erased = creator_of-erase v p d.globs g in
      let last = matching-append fnmatch v others ((p, c) ∷ []) in
      (
        elim (Bool-cases (text_eq p v)) [
          | inl e ↦ rw (appended, erased, e, e) refl
          | inr e ↦ elim (Option-cases (creator_of v d.globs)) [
            | inl f ↦ rw (appended, erased, e, f, e) refl
            | inr (k, f) ↦ rw (appended, erased, e, f) refl
          ]
        ],
        elim (Option-cases (matching fnmatch v others)) [
          | inr (k, f) ↦ rw (n, last, f, get_matched_servlet) refl
          | inl f ↦ elim (Bool-cases (fnmatch p v)) [
            | inl e ↦ rw (n, last, f, e, get_matched_servlet, matching) refl
            | inr e ↦ rw (n, last, f, e, get_matched_servlet, matching) refl
          ]
        ],
      )

  default_matched :
      (slt : Servlet S) (uri : List ℕ) (d : ServletDispatch S)
      → creator_of uri d.datas ≡ none
      → matching fnmatch uri d.globs ≡ none
      → get_matched_servlet fnmatch uri (set_default (some slt) d) ≡ some slt
  unfolding get_matched_servlet set_default
  default_matched slt uri d n m = rw (n, m, get_matched_servlet) refl

  -- A path without a servlet is answered with status 404, the page with the name that the default was given and, whatever
  -- server the response named, `sylar/1.1.1`; no content type is set. The result of handle is 0.
  pub not_found_lem :
      (name server : List ℕ) (d : ServletDispatch S) (request : HttpRequest)
      (response : HttpResponse) (session : S)
      → creator_of request.path d.datas ≡ none
      → matching fnmatch request.path d.globs ≡ none
      → let (result, answer, after) =
          dispatch_handle fnmatch
            (set_default (some (not_found_servlet name)) d)
            request
            (set_headers (codes "Server") server response)
            session in
        (result ≡ pos 0)
        × (answer.status ≡ 404)
        × (answer.body ≡ not_found_content name)
        × (response_header (codes "server") [] answer ≡ codes "sylar/1.1.1")
        × (response_header (codes "Content-Type") [] answer
            ≡ response_header (codes "Content-Type") [] response)
        × (after ≡ session)
  unfolding dispatch_handle not_found_servlet response_header set_headers set_body set_status get_or
      not_found_headers
  not_found_lem name server d request response session n m =
      rw (default_matched (not_found_servlet name) request.path d n m, dispatch_handle)
        (
          refl,
          refl,
          refl,
          ap answer_or (found_server server response.headers),
          ap answer_or (kept_type server response.headers),
          refl,
        )
