-- ===== src/UserAgent.antt =====
-- pkg/useragent/useragent.go: the name of a device.
use cloud_zero_knowledge_sto.Base.{
  Bool, true, false, not, ◌&&◌, ◌||◌, [], ◌∷◌, ◌++◌, Text, ◌==◌, if◌then◌else◌, is_empty, text,
}

abbrev pub is_prefix : Text → Text → Bool
is_prefix [] s = true
is_prefix (c ∷ p) [] = false
is_prefix (c ∷ p) (d ∷ s) = c == d && is_prefix p s

-- `strings.Contains`
unfoldable pub has : Text → Text → Bool
has [] sub = is_empty sub
has (c ∷ s) sub = is_prefix sub (c ∷ s) || has s sub

unfoldable pub parse_browser : Text → Text
parse_browser ua =
    if has ua (text "Edg/") || has ua (text "Edge/")
    then text "Edge"
    else if has ua (text "OPR/") || has ua (text "Opera/")
    then text "Opera"
    else if has ua (text "Chrome/") && not (has ua (text "Chromium/"))
    then text "Chrome"
    else if has ua (text "Chromium/")
    then text "Chromium"
    else if has ua (text "Firefox/")
    then text "Firefox"
    else if has ua (text "Safari/") && has ua (text "Version/")
    then text "Safari"
    else []

unfoldable pub parse_os : Text → Text
parse_os ua =
    if has ua (text "iPhone")
    then text "iPhone"
    else if has ua (text "iPad")
    then text "iPad"
    else if has ua (text "Android")
    then text "Android"
    else if has ua (text "Windows NT")
    then text "Windows"
    else if has ua (text "Macintosh") || has ua (text "Mac OS X")
    then text "macOS"
    else if has ua (text "Linux")
    then text "Linux"
    else []

-- `Parse`
unfoldable pub device_name_of : Text → Text
unfolding parse_browser parse_os
device_name_of ua =
    let os = parse_os ua in
    let browser = parse_browser ua in
    if is_empty ua
    then text "Unknown device"
    else if not (is_empty browser) && not (is_empty os)
    then browser ++ text " on " ++ os
    else if not (is_empty browser)
    then browser
    else if not (is_empty os)
    then text "Browser on " ++ os
    else text "Unknown device"
