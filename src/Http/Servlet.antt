-- ===== src/Http/Servlet.antt =====
-- The servlets of libcocao/http/servlet.h and libcocao/http/servlet.cc. A servlet pointer is an option, with `none` for
-- nullptr; `fnmatch` is a parameter, whether a pattern matches a uri. S is the state of the session that
-- servlets are given.
pub mod Globs
pub mod Delete
pub mod Dispatch
pub mod Matched
mod Runs
use libcocao.Base.{ℕ, Bool, Option, none, some, List, [], ◌∷◌, ◌++◌, if◌then◌else◌, ◌>>=◌}
use libcocao.FdManager.{ℤ, pos}
use libcocao.Log.{text_eq, codes}
use libcocao.Http.{◌<<◌}
use libcocao.Http.Request.{HttpRequest}
use libcocao.Http.Response.{HttpResponse, set_status, set_headers, set_body}

-- Servlet, with the response and the session that its handle leaves behind.
pub record Servlet (S : Type 0) : Type 0 where
  pub name : List ℕ
  pub handle : HttpRequest → HttpResponse → S → ℤ × HttpResponse × S

-- HoldServletCreator, and ServletCreator with its type's name and a new servlet of that type.
pub data Creator (S : Type 0) : Type 0 where
  hold : Option (Servlet S) → Creator S
  make : List ℕ → Servlet S → Creator S

abbrev pub Creators : Type 0 → Type 0
Creators S = List (List ℕ × Creator S)

-- ServletDispatch: m_datas, an unordered_map, m_globs and m_default.
pub record ServletDispatch (S : Type 0) : Type 0 where
  pub datas : Creators S
  pub globs : Creators S
  pub default : Option (Servlet S)

-- NotFoundServlet::NotFoundServlet, m_content.
pub not_found_content : List ℕ → List ℕ
not_found_content name =
    codes
      "<html><head><title>404 Not Found</title></head><body><centor><h1>404 Not Found</h1></center><hr><center>"
    << name
    << codes "</center></body><html>"

module _ {S : Type 0} where
  -- IServletCreator::get.
  pub get : Creator S → Option (Servlet S)
  get (hold slt) = slt
  get (make name slt) = some slt

  -- FunctionServlet.
  pub function_servlet : (HttpRequest → HttpResponse → S → ℤ × HttpResponse × S) → Servlet S
  function_servlet cb = record { name = codes "FunctionServlet"; handle = cb }

  -- NotFoundServlet::handle.
  pub not_found_handle : List ℕ → HttpRequest → HttpResponse → S → ℤ × HttpResponse × S
  not_found_handle content request response session =
      let with_status = set_status 404 response in
      let with_server = set_headers (codes "server") (codes "sylar/1.1.1") with_status in
      let with_type = set_headers (codes "Contect-Type") (codes "text/html") with_server in
      (pos 0, set_body content with_type, session)

  pub not_found_servlet : List ℕ → Servlet S
  unfolding not_found_handle not_found_content
  not_found_servlet name = record {
    name = codes "NotFoundServlet";
    handle = not_found_handle (not_found_content name);
  }

  -- ServletDispatch::ServletDispatch.
  pub dispatch_new : ServletDispatch S
  unfolding not_found_servlet
  dispatch_new = record {
    datas = [];
    globs = [];
    default = some (not_found_servlet (codes "sylar/1.0"));
  }

  -- `m_datas.find(uri)`, and the search of m_globs for a uri.
  unfoldable pub creator_of : List ℕ → Creators S → Option (Creator S)
  creator_of uri [] = none
  creator_of uri ((u, c) ∷ cs) =
      let rest = creator_of uri cs in if text_eq u uri then some c else rest

  -- `m_datas[uri] = creator`, with the new key behind the others.
  pub set_creator : List ℕ → Creator S → Creators S → Creators S
  set_creator uri c [] = (uri, c) ∷ []
  set_creator uri c ((u, d) ∷ cs) =
      let rest = (u, d) ∷ set_creator uri c cs in if text_eq u uri then (u, c) ∷ cs else rest

  -- `m_datas.erase(uri)`, and the loop of addGlobServlet that erases the first with that uri.
  pub erase_creator : List ℕ → Creators S → Creators S
  erase_creator uri [] = []
  erase_creator uri ((u, d) ∷ cs) =
      let rest = (u, d) ∷ erase_creator uri cs in if text_eq u uri then cs else rest

  pub add_servlet_creator : List ℕ → Creator S → ServletDispatch S → ServletDispatch S
  unfolding set_creator
  add_servlet_creator uri creator d = record d { datas = set_creator uri creator d.datas }

  pub add_servlet : List ℕ → Option (Servlet S) → ServletDispatch S → ServletDispatch S
  unfolding set_creator
  add_servlet uri slt d = record d { datas = set_creator uri (hold slt) d.datas }

  pub add_glob_servlet_creator : List ℕ → Creator S → ServletDispatch S → ServletDispatch S
  unfolding erase_creator
  add_glob_servlet_creator uri creator d = record d {
    globs = erase_creator uri d.globs ++ (uri, creator) ∷ [];
  }

  pub add_glob_servlet : List ℕ → Option (Servlet S) → ServletDispatch S → ServletDispatch S
  unfolding erase_creator
  add_glob_servlet uri slt d = record d {
    globs = erase_creator uri d.globs ++ (uri, hold slt) ∷ [];
  }

  pub del_servlet : List ℕ → ServletDispatch S → ServletDispatch S
  unfolding erase_creator
  del_servlet uri d = record d { datas = erase_creator uri d.datas }

  -- The loop of delGlobServlet. After an erasure the iterator is at the next element and is then moved on;
  -- `none` where it is moved on from the end.
  pub del_globs : List ℕ → Creators S → Option (Creators S)
  del_globs uri [] = some []
  del_globs uri ((u, c) ∷ []) = if text_eq u uri then none else some ((u, c) ∷ [])
  del_globs uri ((u, c) ∷ (p ∷ cs)) =
      let skipped = del_globs uri cs >>= λ rest. some (p ∷ rest) in
      let kept = del_globs uri (p ∷ cs) >>= λ rest. some ((u, c) ∷ rest) in
      if text_eq u uri then skipped else kept

  pub del_glob_servlet : List ℕ → ServletDispatch S → Option (ServletDispatch S)
  unfolding del_globs
  del_glob_servlet uri d = del_globs uri d.globs >>= λ globs. some (record d { globs = globs })

  pub set_default : Option (Servlet S) → ServletDispatch S → ServletDispatch S
  set_default v d = record d { default = v }

  pub get_servlet : List ℕ → ServletDispatch S → Option (Servlet S)
  unfolding creator_of get
  get_servlet uri d = creator_of uri d.datas >>= get

  pub get_glob_servlet : List ℕ → ServletDispatch S → Option (Servlet S)
  unfolding creator_of get
  get_glob_servlet uri d = creator_of uri d.globs >>= get

  -- The assignments of the list operations.
  pub set_all : Creators S → Creators S → Creators S
  unfolding set_creator
  set_all [] infos = infos
  set_all ((u, c) ∷ cs) infos = set_all cs (set_creator u c infos)

  pub list_all_servlet_creator : ServletDispatch S → Creators S → Creators S
  unfolding set_all
  list_all_servlet_creator d infos = set_all d.globs infos

  pub list_all_glob_servlet_creator : ServletDispatch S → Creators S → Creators S
  unfolding set_all
  list_all_glob_servlet_creator d infos = set_all d.datas infos

  module _ (fnmatch : List ℕ → List ℕ → Bool) where
    -- The loop of getMatchedServlet over m_globs.
    unfoldable pub matching : List ℕ → Creators S → Option (Creator S)
    matching uri [] = none
    matching uri ((p, c) ∷ cs) =
        let rest = matching uri cs in if fnmatch p uri then some c else rest

    pub get_matched_servlet : List ℕ → ServletDispatch S → Option (Servlet S)
    unfolding creator_of get matching
    get_matched_servlet uri d = elim (creator_of uri d.datas) [
      | some c ↦ get c
      | none ↦ elim (matching uri d.globs) [ none ↦ d.default | some c ↦ get c ]
    ]

    -- ServletDispatch::handle.
    pub dispatch_handle : ServletDispatch S → HttpRequest → HttpResponse → S → ℤ × HttpResponse × S
    unfolding get_matched_servlet
    dispatch_handle d request response session = elim (get_matched_servlet request.path d) [
      | none ↦ (pos 0, response, session)
      | some slt ↦
          let (result, answer, after) = slt.handle request response session in
          (pos 0, answer, after)
    ]
