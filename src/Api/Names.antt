-- ===== src/Api/Names.antt =====
-- The patterns that internal/api/ checks its requests with.
use Prim.Native.Char.{Char, code}
use beanstore.Base.{◌≡◌, refl, String, Bool, true, false, ◌&&◌, ◌||◌, leb, ◌==◌, if◌then◌else◌}

is_between : Char → Char → Char → Bool
is_between lo hi c = leb (code lo) (code c) && leb (code c) (code hi)

is_char : Char → Char → Bool
is_char d c = code c == code d

is_alphanumeric : Char → Bool
unfolding is_between
is_alphanumeric c = is_between "a" "z" c || is_between "A" "Z" c || is_between "0" "9" c

-- [a-zA-Z0-9_+]
is_first_char : Char → Bool
unfolding is_alphanumeric is_char
is_first_char c = is_alphanumeric c || is_char "_" c || is_char "+" c

-- [a-zA-Z0-9_+.-]
is_id_char : Char → Bool
unfolding is_first_char is_char
is_id_char c = is_first_char c || is_char "." c || is_char "-" c

-- [a-zA-Z0-9._-]
is_host_char : Char → Bool
unfolding is_alphanumeric is_char
is_host_char c = is_alphanumeric c || is_char "." c || is_char "_" c || is_char "-" c

every_char : (Char → Bool) → String → Bool
every_char p String.[] = true
every_char p (String.◌∷◌ c s) = p c && every_char p s

-- volumeIDPattern
unfoldable pub is_volume_id : String → Bool
unfolding is_first_char is_id_char every_char
is_volume_id String.[] = false
is_volume_id (String.◌∷◌ c s) = is_first_char c && every_char is_id_char s

-- `[0-9]+$`
is_port : String → Bool
unfolding is_between every_char
is_port String.[] = false
is_port (String.◌∷◌ c s) = every_char (is_between "0" "9") (String.◌∷◌ c s)

-- The rest of the host, or the colon and the port; a colon is no character of a host.
after_host : String → Bool
unfolding is_host_char is_char is_port
after_host String.[] = false
after_host (String.◌∷◌ c s) =
    let rest = after_host s in if is_char ":" c then is_port s else is_host_char c && rest

-- targetAddressPattern
unfoldable pub is_target_address : String → Bool
unfolding is_host_char after_host
is_target_address String.[] = false
is_target_address (String.◌∷◌ c s) = is_host_char c && after_host s

test_id : is_volume_id "vol-1.a+rb" ≡ true
unfolding is_volume_id
test_id = refl

test_dash : is_volume_id "-vol" ≡ false
unfolding is_volume_id
test_dash = refl

test_address : is_target_address "node-2.lan:7420" ≡ true
unfolding is_target_address
test_address = refl

test_no_port : is_target_address "node2:" ≡ false
unfolding is_target_address
test_no_port = refl
