-- ===== src/Ghcr/Examples.antt =====
-- A list of two pages, one of whose tags has no manifest any more.
use signalk_doctor_server.Common.{◌≡◌, refl, false, none, some, [], ◌∷◌, str_eq, if◌then◌else◌}
use signalk_doctor_server.Common.Maps.{Map, lookup, insert}
use signalk_doctor_server.Common.Text.{codes, contains_i}
use signalk_doctor_server.Images.Tags.{classify_channel}
use signalk_doctor_server.Ghcr.{
  Env, CacheEntry, token_answer, page_answer, manifest_threw, manifest_answer, url, returned,
  first_page, read_page, fetch_pages, fetch_tag_list, get_anon_token, read_tags, manifest_of,
  next_url, link_target, usable, ListTags, listed, list_tags,
}
use signalk_doctor_server.Ghcr.Fresh.{IsFresh, AllSound, list_tags-IsFresh}

abbrev env : Env
env = record {
  token = λ u. token_answer 200 (some "t");
  page = λ u token.
      if str_eq u (first_page "i")
      then page_answer 200 (some ("1.0.0" ∷ "gone" ∷ [])) (some (codes "<p2>; rel=\"next\""))
      else page_answer 200 (some ("1.1.0" ∷ [])) none;
  manifest = λ image name token.
      if str_eq name "gone" then manifest_threw else manifest_answer 200 (some "d") none;
  resolve = λ target. url "https://ghcr.io/p2";
  iso_date = λ text. none;
  iso = λ n. "then";
  now_iso = "now";
  decimal = λ n. "";
}

two_pages : fetch_tag_list 2 env "i" "t" ≡ some (returned ("1.0.0" ∷ "gone" ∷ "1.1.0" ∷ []))
unfolding fetch_tag_list fetch_pages read_page next_url link_target contains_i
two_pages = refl

abbrev both : ListTags
both =
    listed
      (record {
        name = "1.0.0";
        channel = classify_channel "1.0.0";
        digest = "d";
        pushed_at = "now";
      }
        ∷ record {
          name = "1.1.0";
          channel = classify_channel "1.1.0";
          digest = "d";
          pushed_at = "now";
        }
        ∷ [])
      "now"

abbrev after : Map CacheEntry
after =
    (
      "i",
      record {
        tags =
            record {
              name = "1.0.0";
              channel = classify_channel "1.0.0";
              digest = "d";
              pushed_at = "now";
            }
            ∷ record {
              name = "1.1.0";
              channel = classify_channel "1.1.0";
              digest = "d";
              pushed_at = "now";
            }
            ∷ [];
        fetched_at = 9;
      },
    )
    ∷ []

nothing_cached : AllSound []
unfolding lookup
nothing_cached = λ image e h. cc h

list_tags-IsFresh_example : IsFresh env "i" 5 9 [] after both × AllSound after
unfolding list_tags fetch_tag_list fetch_pages read_page next_url link_target contains_i usable
    get_anon_token read_tags manifest_of lookup insert
list_tags-IsFresh_example = list_tags-IsFresh 2 env "i" false 5 9 [] after both nothing_cached refl
