-- ===== src/Quadlet/Examples.antt =====
-- A quadlet whose image is written twice, and one with carriage returns.
use signalk_doctor_server.Common.{◌≡◌, refl, none, some, List, ℕ}
use signalk_doctor_server.Common.Text.{codes, strip_i, split_codes, trim}
use signalk_doctor_server.Quadlet.{
  join_lines, split_indent, is_image_line, match_image, image_of, rewrite_lines, rewrite_image_line,
}
use signalk_doctor_server.Quadlet.Image.{IsImage}
use signalk_doctor_server.Quadlet.Again.{Replaced, rewrite_image_line-rewrite_image_line}

abbrev quadlet : List ℕ
quadlet = codes "[Container]\n  image = r:1.0.0\nImage=other\n"

abbrev rewritten : List ℕ
rewritten = codes "[Container]\n  Image=r:2.0.0\nImage=other\n"

abbrev again : List ℕ
again = codes "[Container]\n  Image=r:1.0.0\nImage=other\n"

new_image : IsImage (codes "r:2.0.0")
unfolding signalk_doctor_server.Common.Text.trim_start signalk_doctor_server.Common.Text.trim_end
new_image = (refl, refl, refl)

rewrite_image_line-rewrite_image_line_example :
    ((ms : List (List ℕ)) × (rewritten ≡ join_lines ms)
      × Replaced
          (codes "r:2.0.0")
          (codes "r:1.0.0")
          new_image
          (split_codes 10 quadlet)
          ms
          (codes "r:1.0.0"))
    × ((body'' : List ℕ) × (rewrite_image_line quadlet (codes "r:1.0.0")
          ≡ some (body'', codes "r:1.0.0"))
        × (rewrite_image_line rewritten (codes "r:1.0.0") ≡ some (body'', codes "r:2.0.0")))
unfolding rewrite_image_line rewrite_lines image_of match_image is_image_line split_indent
    join_lines split_codes strip_i trim
rewrite_image_line-rewrite_image_line_example =
    rewrite_image_line-rewrite_image_line (codes "r:2.0.0") (codes "r:1.0.0") new_image quadlet
      rewritten (codes "r:1.0.0") refl

-- `.` does not match the carriage return, so the line is passed over and the rewrite throws.
carriage_return : rewrite_image_line (codes "Image=r:1\r\n") (codes "r:2") ≡ none
unfolding rewrite_image_line rewrite_lines image_of match_image is_image_line split_indent
    join_lines split_codes strip_i trim
carriage_return = refl
