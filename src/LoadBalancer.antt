-- ===== src/LoadBalancer.antt =====
-- pkg/cloudprovider/aws/load_balancer.go and pkg/cloudprovider/provider.go: what a host name of a
-- load balancer says. The regular expressions are matched as package `regexp` matches them:
-- greedily, from the left.
pub mod Match
pub mod Hostname
use aws_global_accelerator_c.Prelude.{
  ℕ, Text, Bool, true, false, ◌||◌, ◌&&◌, not, Option, none, some, List, [], ◌∷◌, ◌++◌, codes, ◌==◌,
  leb, ltb, nat_beq, ◌-◌, zero, suc, length, all, is_empty, split, ends_with, strip_prefix,
  if◌then◌else◌,
}
use aws_global_accelerator_c.Errors.{Result, ok, err, panic, errorf, ◌>>=◌}

-- `\w`
unfoldable pub is_word : ℕ → Bool
is_word c =
    (leb b'0' c && leb c b'9')
    || (leb b'A' c && leb c b'Z')
    || (leb b'a' c && leb c b'z')
    || nat_beq c b'_'

-- `[\w\-]`
unfoldable pub is_name_char : ℕ → Bool
unfolding is_word
is_name_char c = is_word c || nat_beq c b'-'

abbrev pub push : ℕ → Option Text → Option Text
push c none = none
push c (some t) = some (c ∷ t)

abbrev pub or_else : Option Text → Option Text → Option Text
or_else (some t) o = some t
or_else none o = o

-- `[\w]+$`
unfoldable pub is_word_tail : Text → Bool
unfolding is_word
is_word_tail s = not (is_empty s) && all is_word s

-- `\-[\w]+$`, with what the group before it has taken.
unfoldable pub match_hash : Text → Option Text
unfolding is_word_tail
match_hash [] = none
match_hash (c ∷ s) = if nat_beq c b'-' && is_word_tail s then some [] else none

-- `([\w\-]*)\-[\w]+$`: the group takes one more byte if the rest matches then, and stops if not.
unfoldable pub match_star : Text → Option Text
unfolding is_name_char match_hash
match_star [] = none
match_star (c ∷ s) =
    let more = match_star s in
    or_else (if is_name_char c then push c more else none) (match_hash (c ∷ s))

-- `^([\w\-]+)\-[\w]+$`
unfoldable pub match_name : Text → Option Text
unfolding match_star
match_name [] = none
match_name (c ∷ s) = if is_name_char c then push c (match_star s) else none

-- A match is the name, and no match is an error.
abbrev pub name_or : Text → Option Text → Result Text
name_or message none = err (errorf message)
name_or message (some name) = ok name

abbrev pub match_after : Option Text → Option Text
match_after none = none
match_after (some rest) = match_name rest

abbrev pub internal_prefix : Text
internal_prefix = codes "internal-"

-- `internalALBName`
unfoldable pub internal_alb_name : Text → Result Text
unfolding match_name strip_prefix
internal_alb_name subdomain =
    name_or (codes "Failed to parse subdomain for internal ALB: " ++ subdomain)
      (match_after (strip_prefix internal_prefix subdomain))

-- `publicALBName`
unfoldable pub public_alb_name : Text → Result Text
unfolding match_name
public_alb_name subdomain =
    name_or (codes "Failed to parse subdomain for public ALB: " ++ subdomain) (match_name subdomain)

-- `nlbName`
unfoldable pub nlb_name : Text → Result Text
unfolding match_name
nlb_name subdomain =
    name_or (codes "Failed to parse subdomain for NLB: " ++ subdomain) (match_name subdomain)

-- `slice[i]`
abbrev pub index {ℓ} : {A : Type ℓ} → List A → ℕ → Result A
index [] i = panic
index (x ∷ xs) zero = ok x
index (x ∷ xs) (suc i) = index xs i

abbrev pub is_some : Option Text → Bool
is_some none = false
is_some (some t) = true

-- `matchALBHostname`
unfoldable pub match_alb_hostname : Text → Result (Text × Text)
match_alb_hostname hostname = do
  let slice = split b'.' hostname
  subdomain ← index slice 0
  region ← index slice 1
  name ←
      if is_some (strip_prefix internal_prefix subdomain)
      then internal_alb_name subdomain
      else public_alb_name subdomain
  ok (name, region)

-- `matchNLBHostname`
unfoldable pub match_nlb_hostname : Text → Result (Text × Text)
match_nlb_hostname hostname = do
  let slice = split b'.' hostname
  subdomain ← index slice 0
  region ← index slice 2
  name ← nlb_name subdomain
  ok (name, region)

unfoldable pub alb_suffix : Text
alb_suffix = codes ".elb.amazonaws.com"

unfoldable pub elb_label : Text
elb_label = codes ".elb."

unfoldable pub amazonaws_suffix : Text
amazonaws_suffix = codes ".amazonaws.com"

-- `.+\.amazonaws\.com$`
unfoldable pub match_region_tail : Text → Bool
match_region_tail [] = false
match_region_tail (c ∷ s) =
    let more = match_region_tail s in not (nat_beq c b'\n') && ((s == amazonaws_suffix) || more)

abbrev pub tail_matches : Option Text → Bool
tail_matches none = false
tail_matches (some rest) = match_region_tail rest

-- `\.elb\..+\.amazonaws\.com$`, anywhere in the text.
unfoldable pub match_nlb_suffix : Text → Bool
match_nlb_suffix [] = false
match_nlb_suffix (c ∷ s) =
    let more = match_nlb_suffix s in tail_matches (strip_prefix elb_label (c ∷ s)) || more

-- `GetLBNameFromHostname`
unfoldable pub get_lb_name_from_hostname : Text → Result (Text × Text)
get_lb_name_from_hostname hostname =
    if ends_with alb_suffix hostname
    then match_alb_hostname hostname
    else if match_nlb_suffix hostname
    then match_nlb_hostname hostname
    else err (errorf (hostname ++ codes " is not Elastic Load Balancer"))

-- `GetRegionFromARN`
unfoldable pub get_region_from_arn : Text → Result Text
get_region_from_arn arn = index (split b':' arn) 3

-- `parts[len(parts)-k]`: a negative index panics.
unfoldable pub index_from_end : List Text → ℕ → Result Text
index_from_end parts k = if leb k (length parts) then index parts (length parts - k) else panic

abbrev pub aws_provider : Text
aws_provider = codes "aws"

-- `DetectCloudProvider`
unfoldable pub detect_cloud_provider : Text → Result Text
unfolding index_from_end
detect_cloud_provider hostname = do
  let parts = split b'.' hostname
  p ← index_from_end parts 2
  q ← index_from_end parts 1
  let domain = p ++ (b'.' ∷ q)
  if domain == codes "amazonaws.com"
      then ok aws_provider
      else err (errorf (codes "Unknown cloud provider: " ++ domain))
