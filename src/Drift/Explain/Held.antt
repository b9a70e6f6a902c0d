-- ===== src/Drift/Explain/Held.antt =====
-- What an explanation says about who holds a package.
use signalk_doctor_server.Common.{
  ◌≡◌, refl, sym, ap, ◌∙◌, subst, option_map, option_bind, ◌⊎◌, inl, inr, Bool, true, false, ◌&&◌,
  ◌||◌, Option, none, some, List, [], ◌∷◌, ◌++◌, String, str_eq, eq_iff, arith, if◌then◌else◌, any,
  All, get_or,
}
use signalk_doctor_server.Common.Maps.{Map}
use signalk_doctor_server.Common.Json.{Json, get_field, as_array, as_string}
use signalk_doctor_server.Drift.Explain.{
  PackageDependent, PackageExplanation, same_dependent, with_dependent, add_dependent,
  add_dependents, add_copies, all_extraneous, relevant_copies, is_nil, explain_one, explain_all,
  group_copies, parse_explain_output, dependent_name, first_version,
}

abbrev pub is_server : PackageDependent → Bool
is_server d = str_eq d.name "signalk-server"

-- No two have the same name and range.
abbrev pub Distinct : List PackageDependent → Type 0
Distinct [] = Unit
Distinct (d ∷ ds) = (any (same_dependent d) ds ≡ false) × Distinct ds

abbrev IsHeld : PackageExplanation → Type 0
IsHeld e = (e.held_by_embedded_server ≡ any is_server e.dependents) × Distinct e.dependents

same_dependent_comm : (d e : PackageDependent) → same_dependent d e ≡ same_dependent e d
same_dependent_comm d e =
    ground (
      eq_iff d.name e.name,
      eq_iff e.name d.name,
      eq_iff d.spec e.spec,
      eq_iff e.spec d.spec,
      arith,
    )

any-append :
    (p : PackageDependent → Bool) (xs : List PackageDependent) (y : PackageDependent)
    → any p (xs ++ y ∷ []) ≡ (p y || any p xs)
any-append p [] y = refl
any-append p (x ∷ xs) y = ground (any-append p xs y, arith)

Distinct-append :
    (ds : List PackageDependent) (d : PackageDependent)
    → any (same_dependent d) ds ≡ false
    → Distinct ds
    → Distinct (ds ++ d ∷ [])
Distinct-append [] d new h = (refl, tt)
Distinct-append (e ∷ ds) d new (fresh, more) = (
  any-append (same_dependent e) ds d ∙ ground (same_dependent_comm d e, new, fresh, arith),
  Distinct-append ds d (ground (new, arith)) more,
)

-- A dependent that is there already has the name of the new one.
any-server :
    (d : PackageDependent) (ds : List PackageDependent)
    → any (same_dependent d) ds ≡ true
    → any is_server ds ≡ (is_server d || any is_server ds)
any-server d [] h = cc
any-server d (e ∷ ds) h = ground (
  any-server d ds,
  eq_iff e.name d.name,
  eq_iff e.spec d.spec,
  ap (λ n. str_eq n "signalk-server"),
  eq_iff e.name "signalk-server",
  eq_iff d.name "signalk-server",
  arith,
)

with_dependent-IsHeld :
    (d : PackageDependent) (e : PackageExplanation) → IsHeld e → IsHeld (with_dependent d e)
unfolding with_dependent
with_dependent-IsHeld d e (held, distinct) = pick (any (same_dependent d) e.dependents) refl
  where
    pick :
        (b : Bool)
        → any (same_dependent d) e.dependents ≡ b
        → ((is_server d || e.held_by_embedded_server)
            ≡ any is_server (if b then e.dependents else e.dependents ++ d ∷ []))
          × Distinct (if b then e.dependents else e.dependents ++ d ∷ [])
    pick true known =
        (ap (λ b. is_server d || b) held ∙ sym (any-server d e.dependents known), distinct)
    pick false known = (
      ap (λ b. is_server d || b) held ∙ sym (any-append is_server e.dependents d),
      Distinct-append e.dependents d known distinct,
    )

add_dependent-IsHeld :
    (raw : Json) (e : PackageExplanation) → IsHeld e → IsHeld (add_dependent raw e)
unfolding add_dependent
add_dependent-IsHeld raw e h = by_spec (as_string (get_field "spec" raw))
  where
    by_spec :
        (o : Option String)
        → IsHeld (elim o [
          | none ↦ e
          | some spec ↦
              with_dependent
                (record {
                  name = dependent_name raw;
                  version = as_string (option_bind (get_field "from" raw) (get_field "version"));
                  spec = spec;
                })
                e
        ])
    by_spec none = h
    by_spec (some spec) = with_dependent-IsHeld _ e h

add_dependents-IsHeld :
    (raws : List Json) (e : PackageExplanation) → IsHeld e → IsHeld (add_dependents raws e)
unfolding add_dependents
add_dependents-IsHeld [] e h = h
add_dependents-IsHeld (raw ∷ rest) e h =
    add_dependents-IsHeld rest (add_dependent raw e) (add_dependent-IsHeld raw e h)

add_copies-IsHeld :
    (copies : List Json) (e : PackageExplanation) → IsHeld e → IsHeld (add_copies copies e)
unfolding add_copies
add_copies-IsHeld [] e h = h
add_copies-IsHeld (raw ∷ rest) e h =
    add_copies-IsHeld rest _
      (add_dependents-IsHeld (get_or (as_array (get_field "dependents" raw)) []) e h)

-- The dependents are told apart, the server's hold is one of them, and what npm will sweep has none.
abbrev pub IsSound : PackageExplanation → Type 0
IsSound e =
    Distinct e.dependents
    × (e.held_by_embedded_server ≡ any is_server e.dependents)
    × ((e.extraneous ≡ false) ⊎ (e.dependents ≡ []))

swept : (ds : List PackageDependent) (b : Bool) → ((is_nil ds && b) ≡ false) ⊎ (ds ≡ [])
unfolding is_nil
swept [] b = inr refl
swept (d ∷ ds) b = inl refl

explain_one-IsSound : (name : String) (copies : List Json) → IsSound (explain_one name copies)
unfolding explain_one
explain_one-IsSound name copies =
    let (held, distinct) =
      add_copies-IsHeld (relevant_copies name copies)
        (record {
          name = name;
          version = first_version (relevant_copies name copies);
          dependents = [];
          extraneous = false;
          held_by_embedded_server = false;
        })
        (refl, tt) in
    (distinct, held, swept _ (all_extraneous (relevant_copies name copies)))

explain_all-IsSound : (groups : Map (List Json)) → All IsSound (explain_all groups)
unfolding explain_all
explain_all-IsSound [] = tt
explain_all-IsSound ((name, copies) ∷ rest) =
    (explain_one-IsSound name copies, explain_all-IsSound rest)

-- In every explanation that is read from npm's output, no dependent is listed twice, the package
-- counts as held by the server exactly if signalk-server is among its dependents, and one that
-- npm will sweep away has no dependents.
pub parse_explain_output-IsSound :
    (parsed : Option Json) (es : List PackageExplanation)
    → parse_explain_output parsed ≡ some es
    → All IsSound es
unfolding parse_explain_output
parse_explain_output-IsSound parsed es e = by_array (as_array parsed) e
  where
    by_array :
        (o : Option (List Json))
        → option_map (λ entries. explain_all (group_copies entries [])) o ≡ some es
        → All IsSound es
    by_array none h = cc
    by_array (some entries) h =
        let same : explain_all (group_copies entries []) ≡ es = ground arith in
        subst (All IsSound) same (explain_all-IsSound (group_copies entries []))
