-- ===== src/Net/AppList.antt =====
-- src/net/nv_applist.cpp: the apps of a host, from its XML. The transport is the text that it
-- returns.
use arcade_launcher_stream_e.Net.Http.{lower}
use arcade_launcher_stream_e.Base.Result.{Result, ◌>>=◌, ok, out_of_fuel, failed}
use arcade_launcher_stream_e.Net.Xml.{ends_name, xml_text, split_at, xml_attr, split_before}
use arcade_launcher_stream_e.Base.{
  ℕ, zero, suc, Bytes, codes, Bool, not, ◌&&◌, ◌||◌, List, [], ◌∷◌, if◌then◌else◌, Option, none,
  some, length, bytes_eq, is_empty, starts_with, ℤ, pos, atoi, drop, above, all_digits,
}
pub mod Listed
pub mod Resolved

pub record AppInfo : Type 0 where
  pub id : ℤ
  pub title : Bytes
  pub hdr_supported : Bool

-- The bytes behind the first '>'.
abbrev pub behind_tag : Option (Bytes × Bytes) → Option Bytes
behind_tag none = none
behind_tag (some (_, body)) = some body

-- At an occurrence of "<App", whose next bytes are the first argument: the body, or the search on.
abbrev pub app_body : Bytes → Bytes → Option Bytes → Option Bytes
app_body [] s further = none
app_body (c ∷ _) s further = if ends_name c then behind_tag (split_at b'>' s) else further

-- `find_app_body`, without the position of the tag, which its caller does not use
unfoldable pub find_app_body : Bytes → Option Bytes
find_app_body [] = none
find_app_body (c ∷ s) =
    let further = find_app_body s in
    if starts_with (codes "<App") (c ∷ s)
    then app_body (drop 4 (c ∷ s)) (c ∷ s) further
    else further

-- The numbers are taken to fit an `int`: what std::atoi makes of others is undefined.
unfoldable pub read_app_info : Bytes → AppInfo
read_app_info block = record {
  id = atoi (xml_text block (codes "ID"));
  title = xml_text block (codes "AppTitle");
  hdr_supported = bytes_eq (xml_text block (codes "IsHdrSupported")) (codes "1");
}

-- An app with a positive id and a title goes into the list.
unfoldable pub keep_app : AppInfo → List AppInfo → List AppInfo
keep_app a apps = if above a.id 0 && not (is_empty a.title) then a ∷ apps else apps

abbrev pub keep : Bytes → Result (List AppInfo) → Result (List AppInfo)
keep block rest = rest >>= λ apps. ok (keep_app (read_app_info block) apps)

-- The element body, up to its close; the rest of the loop is handed in. Without a close, the body
-- is the rest of the document.
unfoldable pub over_body :
    (Bytes → Result (List AppInfo)) → Bytes → Option (Bytes × Bytes) → Result (List AppInfo)
over_body loop body none = keep body (loop [])
over_body loop body (some (block, close)) = keep block (loop (drop 6 close))

unfoldable pub over_found : (Bytes → Result (List AppInfo)) → Option Bytes → Result (List AppInfo)
unfolding over_body
over_found loop none = ok []
over_found loop (some body) = over_body loop body (split_before (codes "</App>") body)

-- The loop of `parse_app_list` over the text from `pos` on, with fuel for its rounds
unfoldable pub app_loop : ℕ → Bytes → Result (List AppInfo)
unfolding over_found
app_loop zero s = out_of_fuel
app_loop (suc f) s = over_found (λ t. app_loop f t) (find_app_body s)

unfoldable pub parse_app_list : Bytes → Result (List AppInfo)
parse_app_list xml = app_loop (suc (length xml)) xml

unfoldable pub are_digits : Bytes → Bool
are_digits s = not (is_empty s) && all_digits s

-- `iequals`; std::tolower in the C locale
unfoldable pub iequals : Bytes → Bytes → Bool
iequals a b = bytes_eq (lower a) (lower b)

unfoldable pub find_title : List AppInfo → Bytes → ℤ
find_title [] ref = pos 0
find_title (a ∷ apps) ref = if iequals a.title ref then a.id else find_title apps ref

unfoldable pub resolve_app_id : List AppInfo → Bytes → ℤ
resolve_app_id apps ref =
    let v = atoi ref in if are_digits ref && above v 0 then v else find_title apps ref

-- `fetch_app_list`: the list, or `failed` with the error text set
unfoldable pub fetch_app_list : Bytes → Result (List AppInfo)
fetch_app_list xml =
    if is_empty xml
      || not (bytes_eq (xml_attr xml (codes "root") (codes "status_code")) (codes "200"))
    then failed
    else parse_app_list xml
