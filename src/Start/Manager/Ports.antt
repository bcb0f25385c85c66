-- ===== src/Start/Manager/Ports.antt =====
-- What becomes of the port that the node manager is given.
use dicon.Base.{
  ℕ, zero, suc, ◌-◌, ◌<◌, ◌^◌, ◌≡◌, ◌≢◌, refl, sym, ◌∙◌, inl, inr, Bool-cases, true, Option, none,
  List, [], ◌∷◌, ◌++◌, arith, ltb, ◌==◌, if◌then◌else◌, All, append-nil,
}
use dicon.Wire.{Bytes}
use dicon.Socket.{IpAddr}
use dicon.Start.Getopt.{
  Opt, unknown, letters, options, go_on, each_option, IsUnknown, each_option-unknown, kind_of,
  no_letter, word_of, operand, cluster,
}
use dicon.Start.Numbers.{digits, decimal, is_digit, digits-All, atoi-decimal}
use dicon.Start.NodeMain.{node_optstring, node_option, node_options, node_defaults}
use dicon.Start.Manager.{
  create_compute_node_cmd, run_loop, manager_option, manager_options, manager_defaults,
  manager_main,
}

-- The same step `k` times.
abbrev pub iterate : {World : Type 0} → ℕ → (World → World) → World → World
iterate zero f w = w
iterate (suc k) f w = iterate k f (f w)

run_loop-iterate :
    {World : Type 0} (run : Bytes → World → World) (k : ℕ) (path : Bytes) (port : ℕ) (w : World)
    → run_loop run k path port w ≡ iterate k (run (create_compute_node_cmd path port)) w
unfolding run_loop
run_loop-iterate run zero path port w = refl
run_loop-iterate run (suc k) path port w =
    run_loop-iterate run k path port (run (create_compute_node_cmd path port) w)

abbrev in_front : ℕ → List Bytes → List Bytes
in_front c [] = (c ∷ []) ∷ []
in_front c (w ∷ ws) = (c ∷ w) ∷ ws

-- The words of a command that has no quotes, as the shell of `popen` splits it at single spaces.
unfoldable pub words : Bytes → List Bytes
words [] = [] ∷ []
words (c ∷ cs) = let rest = words cs in if c == b' ' then [] ∷ rest else in_front c rest

abbrev pub HasNoSpace : Bytes → Type 0
HasNoSpace = All (λ c. c ≢ b' ')

words-one : (w : Bytes) → HasNoSpace w → words w ≡ w ∷ []
unfolding words
words-one [] plain = refl
words-one (c ∷ w) (other, plain) = let rest = words-one w plain in ground (arith, other, rest)

words-append : (w cs : Bytes) → HasNoSpace w → words (w ++ b' ' ∷ cs) ≡ w ∷ words cs
unfolding words
words-append [] cs plain = refl
words-append (c ∷ w) cs (other, plain) =
    let rest = words-append w cs plain in ground (arith, other, rest)

HasNoSpace-digits : (ds : Bytes) → All (λ c. is_digit c ≡ true) ds → HasNoSpace ds
HasNoSpace-digits [] all = tt
HasNoSpace-digits (d ∷ ds) (is, all) = (ground (arith, is), HasNoSpace-digits ds all)

-- A digit is no letter of the node's options.
kind_of-digit : (c : ℕ) → is_digit c ≡ true → kind_of node_optstring c ≡ no_letter
unfolding kind_of
kind_of-digit c is = ground (arith, is)

letters-digits :
    (cs : Bytes)
    → All (λ c. is_digit c ≡ true) cs
    → (opts : List Opt) × (letters node_optstring cs ≡ (opts, none)) × All IsUnknown opts
unfolding letters
letters-digits [] all = ([], refl, tt)
letters-digits (c ∷ cs) (is, all) =
    let (opts, read, unknowns) = letters-digits cs all in
    (unknown ∷ opts, rw (letters, kind_of-digit c is, read), (refl, unknowns))

word_of-digits : (ds : Bytes) → All (λ c. is_digit c ≡ true) ds → word_of ds ≡ operand
unfolding word_of
word_of-digits [] all = refl
word_of-digits (c ∷ []) all = refl
word_of-digits (c ∷ d ∷ ds) (is, all) = ground (arith, is)

word_of-dashed :
    (d : ℕ) (ds : Bytes) → is_digit d ≡ true → word_of (b'-' ∷ d ∷ ds) ≡ cluster (d ∷ ds)
unfolding word_of
word_of-dashed d [] is = ground (arith, is)
word_of-dashed d (c ∷ ds) is = refl

word_of-dash : word_of (b'-' ∷ []) ≡ operand
unfolding word_of
word_of-dash = refl

negative-IsUnknown :
    (ds : Bytes)
    → All (λ c. is_digit c ≡ true) ds
    → All IsUnknown (options node_optstring none ((b'-' ∷ ds) ∷ []))
unfolding options
negative-IsUnknown [] all = rw (options, word_of-dash) tt
negative-IsUnknown (d ∷ ds) (is, all) =
    let (opts, read, unknowns) = letters-digits (d ∷ ds) (is, all) in
    rw (options, word_of-dashed d ds is, read, append-nil opts) unknowns

-- The node knows nothing of what follows "-p".
argument-IsUnknown : (port : ℕ) → All IsUnknown (options node_optstring none (decimal port ∷ []))
unfolding decimal options
argument-IsUnknown port = elim (Bool-cases (ltb port (2 ^ 31))) [
  | inl small ↦ rw (small, options, word_of-digits (digits 10 port) (digits-All 10 port)) tt
  | inr large ↦
      rw large (negative-IsUnknown (digits 10 (2 ^ 32 - port)) (digits-All 10 (2 ^ 32 - port)))
]

decimal-HasNoSpace : (port : ℕ) → HasNoSpace (decimal port)
unfolding decimal
decimal-HasNoSpace port = elim (Bool-cases (ltb port (2 ^ 31))) [
  | inl small ↦ rw small (HasNoSpace-digits (digits 10 port) (digits-All 10 port))
  | inr large ↦
      rw large
        (omega arith, HasNoSpace-digits (digits 10 (2 ^ 32 - port)) (digits-All 10 (2 ^ 32 - port)))
]

abbrev pub minus_p : Bytes
minus_p = b'-' ∷ b'p' ∷ []

words-create_compute_node_cmd :
    (path : Bytes) (port : ℕ)
    → HasNoSpace path
    → words (create_compute_node_cmd path port) ≡ path ∷ minus_p ∷ decimal port ∷ []
unfolding create_compute_node_cmd
words-create_compute_node_cmd path port plain = rw (
  words-append path (b'-' ∷ b'p' ∷ b' ' ∷ decimal port) plain,
  words-append minus_p (decimal port) (omega arith, (omega arith, tt)),
  words-one (decimal port) (decimal-HasNoSpace port),
)

node_options-minus_p :
    (inet_pton : ℕ → List ℕ → Option (ℕ × List ℕ)) (stale : IpAddr) (port : ℕ)
    → node_options inet_pton stale (minus_p ∷ decimal port ∷ [])
      ≡ go_on (node_defaults inet_pton stale)
unfolding node_options options letters kind_of word_of node_option
node_options-minus_p inet_pton stale port =
    each_option-unknown (node_option inet_pton stale)
      (unknown ∷ options node_optstring none (decimal port ∷ [])) (node_defaults inet_pton stale)
      (λ o. refl) (refl, argument-IsUnknown port)

node_options-none :
    (inet_pton : ℕ → List ℕ → Option (ℕ × List ℕ)) (stale : IpAddr)
    → node_options inet_pton stale [] ≡ go_on (node_defaults inet_pton stale)
unfolding node_options options each_option
node_options-none inet_pton stale = refl

manager_options-minus_p :
    (inet_pton : ℕ → List ℕ → Option (ℕ × List ℕ)) (port : ℕ)
    → port < 2 ^ 31
    → manager_options inet_pton (minus_p ∷ decimal port ∷ [])
      ≡ go_on (record (manager_defaults inet_pton) { port = port })
unfolding manager_options options letters kind_of word_of manager_option each_option
manager_options-minus_p inet_pton port fits = rw (atoi-decimal port fits)

-- The node manager passes on the port that it is given, and the node ignores it: for every port below 2^31 the
-- manager runs, in each round of its loop, a command whose words are the node's path, "-p" and that number, and a
-- node with those arguments goes on with the options of one that is given none, so that it listens on
-- 4224. The condition: the node's path has no space.
pub manager_main-node_options :
    {World : Type 0} (inet_pton : ℕ → List ℕ → Option (ℕ × List ℕ)) (stale : IpAddr)
    (run : Bytes → World → World) (k : ℕ) (path : Bytes) (port : ℕ) (w : World)
    → HasNoSpace path
    → port < 2 ^ 31
    → let cmd = create_compute_node_cmd path port in
      (manager_main inet_pton run k path (minus_p ∷ decimal port ∷ []) w
        ≡ go_on (iterate k (run cmd) w))
      × (words cmd ≡ path ∷ minus_p ∷ decimal port ∷ [])
      × (node_options inet_pton stale (minus_p ∷ decimal port ∷ [])
          ≡ node_options inet_pton stale [])
      × (node_options inet_pton stale [] ≡ go_on (node_defaults inet_pton stale))
      × ((node_defaults inet_pton stale).port ≡ 4224)
unfolding manager_main
manager_main-node_options inet_pton stale run k path port w plain fits = (
  rw (manager_options-minus_p inet_pton port fits, run_loop-iterate run k path port w),
  words-create_compute_node_cmd path port plain,
  node_options-minus_p inet_pton stale port ∙ sym (node_options-none inet_pton stale),
  node_options-none inet_pton stale,
  refl,
)
