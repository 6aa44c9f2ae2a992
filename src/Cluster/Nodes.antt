-- ===== src/Cluster/Nodes.antt =====
-- The URLs of nodes, and the path under which a node serves a request (src/control_plane/main.go:
-- the node URLs of conf/nodes.json, as syncIPEvent and syncGeoPolicyEvent extend them).
use shield_core.Prelude.{
  ℕ, ◌≡◌, ◌⊎◌, refl, inl, inr, false, [], ◌∷◌, ◌++◌, append-nil, append_assoc, Text, bytes,
  has_prefix, All-append, ◌==◌, if◌then◌else◌, arith,
}
use shield_core.Strings.Query.{cut}
use shield_core.Strings.Query.RoundTrip.{Lacks}
use shield_core.Cluster.{without_prefix, replace_first}
use shield_core.Cluster.Events.{secure_node_url}

-- The path of a URL that has a scheme and an authority, as a request for it carries it: what is
-- behind the authority, up to the query or the fragment.
abbrev from_slash : Text → Text
from_slash [] = []
from_slash (c ∷ t) = if c == b'/' then c ∷ t else from_slash t

abbrev behind_scheme : Text → Text
behind_scheme [] = []
behind_scheme (c ∷ t) =
    if has_prefix (c ∷ t) (bytes "://")
    then without_prefix (c ∷ t) (bytes "://")
    else behind_scheme t

unfoldable pub path_of : Text → Text
unfolding without_prefix
path_of url = from_slash (behind_scheme (cut b'?' (cut b'#' url).0).0)

-- A host, with a port or without: no path, query or fragment.
abbrev pub IsAuthority : Text → Type 0
IsAuthority a = Lacks b'/' a × Lacks b'?' a × Lacks b'#' a

-- A node as its scheme and its authority.
abbrev pub IsNode : Text → Text → Type 0
IsNode node a =
    IsAuthority a × ((node ≡ a) ⊎ (node ≡ bytes "http://" ++ a) ⊎ (node ≡ bytes "https://" ++ a))

-- A node that is written with its scheme.
abbrev pub HasScheme : Text → Text → Type 0
HasScheme node a = IsAuthority a × ((node ≡ bytes "http://" ++ a) ⊎ (node ≡ bytes "https://" ++ a))

abbrev pub IsNodeUrl : Text → Type 0
IsNodeUrl node = (a : Text) × IsNode node a

abbrev pub IsSchemeUrl : Text → Type 0
IsSchemeUrl node = (a : Text) × HasScheme node a

cut_before : (k : ℕ) (s t : Text) → Lacks k s → (cut k (s ++ t)).0 ≡ s ++ (cut k t).0
unfolding cut
cut_before k [] t h = refl
cut_before k (c ∷ s) t (h, hs) = ground (arith, h, cut_before k s t hs)

before_query :
    (base rest : Text)
    → Lacks b'?' base
    → Lacks b'#' base
    → (cut b'?' (cut b'#' (base ++ b'?' ∷ rest)).0).0 ≡ base ++ []
unfolding cut
before_query base rest h g =
    rw (cut_before b'#' base (b'?' ∷ rest) g) (cut_before b'?' base (b'?' ∷ (cut b'#' rest).0) h)

from_slash_behind : (a t : Text) → Lacks b'/' a → from_slash (a ++ b'/' ∷ t) ≡ b'/' ∷ t
from_slash_behind [] t h = refl
from_slash_behind (c ∷ a) t (h, hs) = ground (arith, h, from_slash_behind a t hs)

-- A text without a slash begins with no text that has one.
prefix_lacking : (t p s : Text) → Lacks b'/' t → has_prefix t (p ++ b'/' ∷ s) ≡ false
unfolding has_prefix
prefix_lacking [] [] s h = refl
prefix_lacking [] (d ∷ p) s h = refl
prefix_lacking (c ∷ t) [] s (h, hs) = ground (arith, h)
prefix_lacking (c ∷ t) (d ∷ p) s (h, hs) = ground (arith, prefix_lacking t p s hs)

no_scheme : (a : Text) → Lacks b'/' a → replace_first (bytes "http://") (bytes "https://") a ≡ a
unfolding replace_first
no_scheme [] h = refl
no_scheme (c ∷ a) h =
    rw (prefix_lacking (c ∷ a) (bytes "http:") (bytes "/") h, no_scheme a h.1) refl

-- The URL of a node over TLS.
pub secure_node_url_lem :
    (node a : Text) → IsNode node a → secure_node_url node ≡ bytes "https://" ++ a
unfolding secure_node_url replace_first has_prefix without_prefix
secure_node_url_lem node a ((l, q, f), inl e) =
    rw (e, no_scheme a l, prefix_lacking a (bytes "https:") (bytes "/") l) refl
secure_node_url_lem node a ((l, q, f), inr (inl e)) = rw e refl
secure_node_url_lem node a ((l, q, f), inr (inr e)) = rw (e, no_scheme a l) refl

base-Lacks : (k : ℕ) (s a t : Text) → Lacks k s → Lacks k a → Lacks k t → Lacks k ((s ++ a) ++ t)
base-Lacks k s a t u v w =
    All-append (λ c. (c == k) ≡ false) (s ++ a) t (All-append (λ c. (c == k) ≡ false) s a u v) w

path_behind :
    (scheme a path rest : Text)
    → ((t : Text) → behind_scheme (scheme ++ t) ≡ t)
    → Lacks b'?' scheme
    → Lacks b'#' scheme
    → IsAuthority a
    → Lacks b'?' (b'/' ∷ path)
    → Lacks b'#' (b'/' ∷ path)
    → path_of (((scheme ++ a) ++ b'/' ∷ path) ++ b'?' ∷ rest) ≡ b'/' ∷ path
unfolding path_of
path_behind scheme a path rest behind x y (l, q, f) h g =
    let base = (scheme ++ a) ++ b'/' ∷ path in
    rw
      (
        before_query base rest (base-Lacks b'?' scheme a (b'/' ∷ path) x q h)
            (base-Lacks b'#' scheme a (b'/' ∷ path) y f g),
        append-nil base,
        append_assoc scheme a (b'/' ∷ path),
        behind (a ++ b'/' ∷ path),
      )
      (from_slash_behind a path l)

-- The path of a URL that is made of a node over TLS, a path and a query.
pub path_of-secure :
    (node a path rest : Text)
    → IsNode node a
    → Lacks b'?' (b'/' ∷ path)
    → Lacks b'#' (b'/' ∷ path)
    → path_of ((secure_node_url node ++ b'/' ∷ path) ++ b'?' ∷ rest) ≡ b'/' ∷ path
unfolding has_prefix without_prefix
path_of-secure node a path rest (l, e) h g =
    rw (secure_node_url_lem node a (l, e))
      (path_behind (bytes "https://") a path rest (λ t. refl) (ground arith) (ground arith) l h g)

pub path_of-scheme :
    (node a path rest : Text)
    → HasScheme node a
    → Lacks b'?' (b'/' ∷ path)
    → Lacks b'#' (b'/' ∷ path)
    → path_of ((node ++ b'/' ∷ path) ++ b'?' ∷ rest) ≡ b'/' ∷ path
unfolding has_prefix without_prefix
path_of-scheme node a path rest (l, inl e) h g =
    rw e (path_behind (bytes "http://") a path rest (λ t. refl) (ground arith) (ground arith) l h g)
path_of-scheme node a path rest (l, inr e) h g =
    rw e
      (path_behind (bytes "https://") a path rest (λ t. refl) (ground arith) (ground arith) l h g)

-- Neither of the characters that end a path stands in a node.
pub node-Lacks :
    (k : ℕ) (node a : Text)
    → Lacks k (bytes "http://")
    → Lacks k (bytes "https://")
    → Lacks k a
    → (node ≡ a) ⊎ (node ≡ bytes "http://" ++ a) ⊎ (node ≡ bytes "https://" ++ a)
    → Lacks k node
node-Lacks k node a h g l (inl e) = rw e l
node-Lacks k node a h g l (inr (inl e)) =
    rw e (All-append (λ c. (c == k) ≡ false) (bytes "http://") a h l)
node-Lacks k node a h g l (inr (inr e)) =
    rw e (All-append (λ c. (c == k) ≡ false) (bytes "https://") a g l)
