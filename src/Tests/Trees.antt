-- ===== src/Tests/Trees.antt =====
-- JSON for the tests: trees for the nodes, and texts that are words, each for one request.
use modbusd.Prelude.{
  ℕ, zero, suc, ◌^◌, ◌<◌, ◌≡◌, refl, Option, none, some, List, [], ◌∷◌, ◌++◌, false, String, arith,
  CString, c_str, str_eq, str_eq_refl, ltb, take, lt→ltb, if◌then◌else◌,
}
use modbusd.Prelude.Int.{ℤ, pos, negsuc, IsInt32}
use modbusd.Env.{Parse, parsed, syntax_error}

mutual
  pub data Node : Type 0 where
    number : ℤ → Node
    string : CString → Node
    object : Members → Node
    array : Items → Node

  pub data Members : Type 0 where
    end : Members
    member : CString → Node → Members → Members

  pub data Items : Type 0 where
    nil : Items
    cons : Node → Items → Items

abbrev pub find_member : Members → CString → Option Node
find_member end k = none
find_member (member j v ms) k = if str_eq j k then some v else find_member ms k

abbrev pub add_member : Members → CString → Node → Members
add_member end k v = member k v end
add_member (member j w ms) k v = member j w (add_member ms k v)

abbrev pub members : Node → Members
members (object ms) = ms
members _ = end

abbrev pub size_of : Items → ℕ
size_of nil = 0
size_of (cons x xs) = suc (size_of xs)

abbrev pub item_of : Items → ℕ → Option Node
item_of nil i = none
item_of (cons x xs) zero = some x
item_of (cons x xs) (suc i) = item_of xs i

abbrev pub items : Node → Items
items (array xs) = xs
items _ = nil

abbrev clamp : ℤ → ℤ
clamp (pos n) = if ltb n (2 ^ 31) then pos n else pos 0
clamp (negsuc n) = if ltb n (2 ^ 31) then negsuc n else pos 0

abbrev pub int_of : Node → ℤ
int_of (number n) = clamp n
int_of _ = pos 0

abbrev pub text_of : Node → Option CString
text_of (string t) = some t
text_of _ = none

abbrev pub numbers : List ℕ → Items
numbers [] = nil
numbers (n ∷ ns) = cons (number (pos n)) (numbers ns)

abbrev pub request : CString → Members → Node
request cmd rest = object (
    member (c_str "ip") (string (c_str "10.0.0.1")) (
      member (c_str "port") (string (c_str "502")) (
        member (c_str "slave") (number (pos 1))
          (member (c_str "tid") (number (pos 7)) (member (c_str "cmd") (string cmd) rest)))))

-- addr, len and data.
abbrev pub arguments : ℕ → ℕ → Node → Members
arguments addr len value =
    member (c_str "addr") (number (pos addr))
      (member (c_str "len") (number (pos len)) (member (c_str "data") value end))

abbrev pub read_coils : Node
read_coils = request (c_str "fc1") (arguments 4 3 (number (pos 0)))

abbrev pub write_coil : Node
write_coil = request (c_str "fc5") (arguments 4 1 (number (pos 1)))

abbrev pub config_file : Node
config_file = object (
    member (c_str "syslog") (number (pos 0)) (
      member (c_str "ipc_sub") (string (c_str "ipc:///a")) (
        member (c_str "ipc_pub") (string (c_str "ipc:///b"))
          (member (c_str "mbtcp_connect_timeout") (number (pos 300000)) end))))

abbrev pub word : String → List ℕ
word s = c_str s ++ 0 ∷ []

abbrev pub parse_word : List ℕ → Parse Node
parse_word block =
    if str_eq block (word "read")
    then parsed read_coils
    else if str_eq block (word "timeout")
    then parsed (request (c_str "timeout") (arguments 0 0 (number (pos 250000))))
    else if str_eq block (word "unknown")
    then parsed (request (c_str "fc99") (arguments 0 0 (number (pos 0))))
    else if str_eq block (word "write")
    then parsed write_coil
    else if str_eq (take 6 block) (c_str "config")
    then parsed config_file
    else syntax_error

-- A response prints as its status, a configuration as the word for it.
abbrev pub print_node : Node → CString
print_node j = elim (find_member (members j) (c_str "status")) [
  | some (string t) ↦ t
  | _ ↦ elim (find_member (members j) (c_str "syslog")) [ some v ↦ c_str "config" | none ↦ [] ]
]

pub find_add_self :
    (ms : Members) (k : CString) (v : Node)
    → find_member ms k ≡ none
    → find_member (add_member ms k v) k ≡ some v
find_add_self end k v e = rw (str_eq_refl k)
find_add_self (member j w ms) k v e = ground (arith, find_add_self ms k v)

pub find_add_ne :
    (ms : Members) (j k : CString) (v : Node)
    → str_eq j k ≡ false
    → find_member (add_member ms j v) k ≡ find_member ms k
find_add_ne end j k v e = rw e
find_add_ne (member i w ms) j k v e = ground (arith, find_add_ne ms j k v e)

pub item_there : (xs : Items) (i : ℕ) → i < size_of xs → (j : Node) × (item_of xs i ≡ some j)
item_there nil i h = absurd (omega arith)
item_there (cons x xs) zero h = (x, refl)
item_there (cons x xs) (suc i) h = item_there xs i (omega arith)

pub int_of-create : (n : ℤ) → IsInt32 n → int_of (number n) ≡ n
int_of-create (pos n) h = rw (lt→ltb n (2 ^ 31) h)
int_of-create (negsuc n) h = rw (lt→ltb n (2 ^ 31) h)

clamp-IsInt32 : (n : ℤ) → IsInt32 (clamp n)
clamp-IsInt32 (pos n) = ground arith
clamp-IsInt32 (negsuc n) = ground arith

pub int_of-IsInt32 : (j : Node) → IsInt32 (int_of j)
int_of-IsInt32 (number n) = clamp-IsInt32 n
int_of-IsInt32 (string t) = omega arith
int_of-IsInt32 (object ms) = omega arith
int_of-IsInt32 (array xs) = omega arith
