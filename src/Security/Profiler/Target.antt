-- ===== src/Security/Profiler/Target.antt =====
-- `profile_target` of security_toolkit/src/core/profiler.py.
pub mod Ports
use csc512_distributed_syste.Prelude.{
  ℕ, ◌+◌, ◌-◌, ◌*◌, Bool, false, ◌&&◌, Option, none, some, List, [], ◌∷◌, ◌++◌, leb, ◌==◌,
  if◌then◌else◌, nat_eq, arith,
}
use csc512_distributed_syste.Prelude.Sort.{sorted}
use csc512_distributed_syste.Prelude.Text.{Text, codes, text_eq, is_space}
use csc512_distributed_syste.Security.Report.{ScanMode, source, runtime}
use csc512_distributed_syste.Security.Plugin.{TargetProfile}
use csc512_distributed_syste.Security.Profiler.{Directory, detect_languages, has_file}

-- The port of a URL: a ValueError, from `urlparse` or from `.port`, none, or its number.
pub data UrlPort : Type 0 where
  invalid_port no_port : UrlPort
  port_number : ℕ → UrlPort

-- What the program asks of the outside world. `inspect` is the output of `docker inspect`, none if it
-- fails; `resolve` is the absolute path; `list` is what stands there, none if it is no directory;
-- `url_port` and `url_scheme` are the parts that `urlparse` gives.
pub record World : Type 0 where
  pub resolve : Text → Text
  pub list : Text → Option Directory
  pub inspect : Text → Option Text
  pub url_port : Text → UrlPort
  pub url_scheme : Text → Text

unfoldable pub close_word : Text → List Text → List Text
close_word [] words = words
close_word (c ∷ word) words = (c ∷ word) ∷ words

-- `s.split()`: the words between white space. `word` is the word read so far.
unfoldable pub split_from : Text → Text → List Text
unfolding close_word
split_from word [] = close_word word []
split_from word (c ∷ s) =
    let rest = split_from (if is_space c then [] else word ++ c ∷ []) s in
    if is_space c then close_word word rest else rest

unfoldable pub is_digit : ℕ → Bool
is_digit c = leb b'0' c && leb c b'9'

-- The number that the leading digits of a token spell, after `n`.
unfoldable pub digits_from : ℕ → Text → ℕ
unfolding is_digit
digits_from n [] = n
digits_from n (c ∷ s) =
    let rest = digits_from (10 * n + (c - b'0')) s in if is_digit c then rest else n

-- `re.match(r"(\d+)", token)` and `int` of the group
unfoldable pub leading_number : Text → Option ℕ
unfolding digits_from
leading_number [] = none
leading_number (c ∷ s) = if is_digit c then some (digits_from 0 (c ∷ s)) else none

unfoldable pub token_ports : List Text → List ℕ
unfolding leading_number
token_ports [] = []
token_ports (t ∷ ts) =
    let rest = token_ports ts in elim (leading_number t) [ none ↦ rest | some n ↦ n ∷ rest ]

unfoldable pub detect_exposed_ports : World → Text → List ℕ
unfolding token_ports split_from
detect_exposed_ports w image = elim (w.inspect image) [
  | none ↦ []
  | some output ↦ sorted leb (token_ports (split_from [] output))
]

-- `if parsed.port`: the port 0 counts as absent. none is the ValueError.
unfoldable pub port_from_url : World → Text → Option ℕ
port_from_url w url =
    let default = if w.url_scheme url == codes "https" then 443 else 80 in
    elim (w.url_port url) [
      | invalid_port ↦ none
      | no_port ↦ some default
      | port_number n ↦ some (if n == 0 then default else n)
    ]

pub data ProfileError : Type 0 where
  nothing_given not_a_directory invalid_url unsupported : ProfileError

pub data ProfileResult : Type 0 where
  profile : TargetProfile → ProfileResult
  error : ProfileError → ProfileResult

unfoldable pub empty_profile : ScanMode → TargetProfile
empty_profile m = record {
  mode = m;
  path = none;
  image = none;
  pid = none;
  service_url = none;
  languages = [];
  has_docker = false;
  has_k8s = false;
  has_terraform = false;
  exposed_ports = [];
  metadata = [];
}

unfoldable pub docker_files : List Text
docker_files = codes "Dockerfile" ∷ codes "dockerfile" ∷ codes "Containerfile" ∷ []

unfoldable pub k8s_files : List Text
k8s_files =
    codes "deployment.yaml"
    ∷ codes "deployment.yml"
    ∷ codes "service.yaml"
    ∷ codes "service.yml"
    ∷ codes "kustomization.yaml"
    ∷ codes "kustomization.yml"
    ∷ codes "Chart.yaml"
    ∷ []

unfoldable pub terraform_files : List Text
terraform_files = codes "main.tf" ∷ codes "variables.tf" ∷ codes "terraform.tf" ∷ []

unfoldable pub source_profile : Text → Directory → TargetProfile
unfolding empty_profile
source_profile path root = record (empty_profile source) {
  path = some path;
  languages = detect_languages root;
  has_docker = has_file root docker_files;
  has_k8s = has_file root k8s_files;
  has_terraform = has_file root terraform_files;
}

unfoldable pub source_result : World → Text → ProfileResult
unfolding source_profile
source_result w target = elim (w.list (w.resolve target)) [
  | none ↦ error not_a_directory
  | some root ↦ profile (source_profile (w.resolve target) root)
]

-- The arguments are target, image, pid and url, as the tests of `profile_target` take them in turn.
unfoldable pub profile_target :
    World → Option Text → Option Text → Option ℕ → Option Text → ProfileResult
unfolding source_result detect_exposed_ports port_from_url
profile_target w none none none none = error nothing_given
profile_target w (some target) none none none = source_result w target
profile_target w none (some image) none url = profile (record (empty_profile runtime) {
  image = some image;
  service_url = url;
  exposed_ports = detect_exposed_ports w image;
})
profile_target w none none none (some url) = elim (port_from_url w url) [
  | none ↦ error invalid_url
  | some n ↦ profile (record (empty_profile runtime) {
    service_url = some url;
    exposed_ports = if n == 0 then [] else n ∷ [];
  })
]
profile_target w none none (some pid) none =
    profile (record (empty_profile runtime) { pid = some pid })
profile_target w _ _ _ _ = error unsupported

abbrev pub ports_of : ProfileResult → List ℕ
ports_of (profile p) = p.exposed_ports
ports_of (error e) = []
