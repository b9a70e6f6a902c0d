-- ===== src/Ghcr/Paging.antt =====
-- The loop over the pages of the tag list.
use mathlib.Core.List.{append_assoc, append-nil}
use signalk_doctor_server.Common.{
  ℕ, zero, suc, ◌≤◌, ◌≡◌, ◌↔◌, refl, sym, subst, ◌∙◌, Bool, true, false, if◌then◌else◌, get_or,
  Empty, Option, none, some, List, [], ◌++◌, String, arith,
}
use signalk_doctor_server.Ghcr.{
  Env, PageAnswer, page_threw, page_answer, is_ok, next_url, Ended, returned, threw, read_page,
  fetch_pages, first_page, fetch_tag_list,
}

-- An answer that is a page: its names, and where its link leads.
abbrev pub IsPage : Env → PageAnswer → List String → Option String → Type 0
IsPage env (page_threw e) tags next = Empty
IsPage env (page_answer status named link) tags next =
    (is_ok status ≡ true) × (next_url env link ≡ returned next) × (tags ≡ get_or named [])

-- The names of a page with what its link says.
abbrev linked : List String → Ended (Option String) → Ended (List String × Option String)
linked tags r = elim r [ returned next ↦ returned (tags, next) | threw e ↦ threw e ]

read_page-IsPage :
    (env : Env) (a : PageAnswer) (tags : List String) (next : Option String)
    → (read_page env a ≡ returned (tags, next)) ↔ IsPage env a tags next
unfolding read_page
read_page-IsPage env (page_threw e) tags next = (λ h. cc h, λ h. elim h [ ])
read_page-IsPage env (page_answer status named link) tags next =
    by_answer (is_ok status) (next_url env link) _
  where
    by_answer :
        (b : Bool) (r : Ended (Option String)) (e : String)
        → ((if b then linked (get_or named []) r else threw e) ≡ returned (tags, next))
          ↔ ((b ≡ true) × (r ≡ returned next) × (tags ≡ get_or named []))
    by_answer false r e = (λ h. cc h, λ (b, f, g). cc b)
    by_answer true (threw x) e = (λ h. cc h, λ (b, f, g). cc f)
    by_answer true (returned nx) e = (λ h. (refl, cc, cc), λ (b, f, g). cc)

-- The pages from a URL on: how many there are, and the names on them.
pub data Pages (env : Env) (token : String) : ℕ → Option String → List String → Type 0 where
  done : Pages env token 0 none []
  page :
      {n : ℕ} {u : String} {rest : List String} (tags : List String) (next : Option String)
      → IsPage env (env.page u token) tags next
      → Pages env token n next rest
      → Pages env token (suc n) (some u) (tags ++ rest)

module _ (env : Env) (token : String) where
  fetch_pages-Pages :
      {n : ℕ} {next : Option String} {names : List String} (fuel : ℕ) (all : List String)
      → Pages env token n next names
      → n ≤ fuel
      → fetch_pages fuel env token next all ≡ some (returned (all ++ names))
  unfolding fetch_pages
  fetch_pages-Pages zero all done h = simp append-nil
  fetch_pages-Pages (suc fuel) all done h = simp append-nil
  fetch_pages-Pages zero all (page tags next e rest) h = absurd (omega (h, arith))
  fetch_pages-Pages (suc fuel) all (page {u = u} {rest = rest} tags next e pages) h =
      subst
        (λ r.
          elim r [
            | threw x ↦ some (threw x)
            | returned (ts, nx) ↦ fetch_pages fuel env token nx (all ++ ts)
          ]
          ≡ some (returned (all ++ (tags ++ rest))))
        (sym ((read_page-IsPage env (env.page u token) tags next).1 e))
        (fetch_pages-Pages fuel (all ++ tags) pages (omega (h, arith)) ∙ simp append_assoc)

  -- Where a run of the loop came to its end.
  abbrev Ends : ℕ → Option String → List String → List String → Type 0
  Ends fuel next all found =
      (n : ℕ) × (names : List String) × (n ≤ fuel)
      × Pages env token n next names
      × (found ≡ all ++ names)

  Pages-fetch_pages :
      (fuel : ℕ) (next : Option String) (all found : List String)
      → fetch_pages fuel env token next all ≡ some (returned found)
      → Ends fuel next all found
  unfolding fetch_pages
  Pages-fetch_pages zero none all found h =
      let e : found ≡ all = cc in (zero, [], omega arith, done, e ∙ sym (append-nil all))
  Pages-fetch_pages (suc fuel) none all found h =
      let e : found ≡ all = cc in (zero, [], omega arith, done, e ∙ sym (append-nil all))
  Pages-fetch_pages zero (some u) all found h = cc h
  Pages-fetch_pages (suc fuel) (some u) all found h =
      by_page (read_page env (env.page u token)) refl
        (λ next ts. Pages-fetch_pages fuel next (all ++ ts) found) h
    where
      by_page :
          (r : Ended (List String × Option String))
          → read_page env (env.page u token) ≡ r
          → ((next : Option String) (ts : List String)
              → fetch_pages fuel env token next (all ++ ts) ≡ some (returned found)
              → Ends fuel next (all ++ ts) found)
          → elim r [
            | threw e ↦ some (threw e)
            | returned (tags, next) ↦ fetch_pages fuel env token next (all ++ tags)
          ]
            ≡ some (returned found)
          → Ends (suc fuel) (some u) all found
      by_page (threw e) q ih h = cc h
      by_page (returned (tags, next)) q ih h =
          let (n, names, l, pages, e) = ih next tags h in
          (
            suc n,
            tags ++ names,
            omega (l, arith),
            page tags next ((read_page-IsPage env (env.page u token) tags next).0 q) pages,
            e ∙ append_assoc all tags names,
          )

pub fetch_tag_list_iff :
    (env : Env) (fuel : ℕ) (image token : String) (names : List String)
    → (fetch_tag_list fuel env image token ≡ some (returned names))
      ↔ ((n : ℕ) × (n ≤ fuel) × Pages env token n (some (first_page image)) names)
unfolding fetch_tag_list
fetch_tag_list_iff env fuel image token names = (
  λ h.
      let (n, found, l, pages, e) =
        Pages-fetch_pages env token fuel (some (first_page image)) [] names h in
      (n, l, subst (Pages env token n (some (first_page image))) (sym e) pages),
  λ (n, l, pages). fetch_pages-Pages env token fuel [] pages l,
)
