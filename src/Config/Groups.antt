-- ===== src/Config/Groups.antt =====
-- Server groups, and the list of them in a configuration.
use tempesta_test.Base.{
  ℕ, ◌+◌, ◌≤◌, ◌≡◌, refl, ◌≢◌, Bool, true, false, not, ◌&&◌, List, [], ◌∷◌, ◌++◌, Option, none,
  some, if◌then◌else◌, ltb, leb, ◌==◌, length, map, is_empty, Result, ok, ◌>>◌, check,
  framework_error, arith, length-append,
}
use tempesta_test.Text.{Text, codes, same, join, to_base}

abbrev pub servers_in_group : ℕ
servers_in_group = 32

abbrev pub server_conns_default : ℕ
server_conns_default = 32

abbrev pub server_conns_max : ℕ
server_conns_max = 32

pub record ServerGroup : Type 0 where
  pub name : Text
  pub hm : Option Text
  pub implicit : Bool
  pub sched : Text
  pub servers : List Text
  pub options : Text

-- `ServerGroup(name, sched, hm)`
unfoldable pub new_group : Text → Text → Option Text → ServerGroup
new_group name sched hm = record {
  name = name;
  hm = hm;
  implicit = same name (codes "default");
  sched = sched;
  servers = [];
  options = [];
}

-- `"server %s:%d%s;" % (ip, port, conns_str)`
unfoldable pub server_line : Text → ℕ → ℕ → Text
unfolding to_base
server_line ip port conns =
    codes "server "
    ++ (ip
        ++ (codes ":"
            ++ (to_base 10 port
                ++ ((if conns == server_conns_default
                      then []
                      else codes " conns_n=" ++ to_base 10 conns)
                    ++ codes ";"))))

unfoldable pub add_server : Text → ℕ → ℕ → ServerGroup → Result ServerGroup
unfolding server_line
add_server ip port conns g = do
  check (leb conns server_conns_max) framework_error
  check (ltb (length g.servers) servers_in_group) framework_error
  ok (record g { servers = g.servers ++ server_line ip port conns ∷ [] })

-- The options that `get_config` leaves in the group: a health monitor is appended.
unfoldable pub add_health : ServerGroup → ServerGroup
add_health g = elim g.hm [
  | none ↦ g
  | some hm ↦
      if is_empty hm
      then g
      else record g { options = g.options ++ (codes " health " ++ (hm ++ codes ";")) }
]

newline : Text
newline = codes "\n"

-- The text of a group with these options.
unfoldable pub group_text : ServerGroup → Text
unfolding newline
group_text g =
    let lines = (codes "sched " ++ (g.sched ++ codes ";")) ∷ g.servers ++ g.options ∷ [] in
    if same g.name (codes "default") && g.implicit
    then join newline lines
    else join newline ((codes "srv_group " ++ (g.name ++ codes " {")) ∷ (lines ++ codes "}" ∷ []))

-- `get_config`: the text, and the group, whose options have changed.
unfoldable pub get_group_config : ServerGroup → Text × ServerGroup
unfolding add_health group_text
get_group_config g = let h = add_health g in (group_text h, h)

unfoldable pub find_sg : Text → List ServerGroup → Option ServerGroup
find_sg name [] = none
find_sg name (g ∷ l) = if same g.name name then some g else find_sg name l

-- `server_groups.remove(sg)`, which removes the first group that is `sg`; no two groups of a list
-- have one name.
unfoldable pub remove_first : Text → List ServerGroup → List ServerGroup
remove_first name [] = []
remove_first name (g ∷ l) =
    let rest = remove_first name l in if same g.name name then l else g ∷ rest

abbrev is_found : Option ServerGroup → Bool
is_found none = false
is_found (some g) = true

unfoldable pub add_sg : ServerGroup → List ServerGroup → Result (List ServerGroup)
unfolding find_sg
add_sg g l = check (not (is_found (find_sg g.name l))) framework_error >> ok (l ++ g ∷ [])

unfoldable pub remove_sg : Text → List ServerGroup → Result (List ServerGroup)
unfolding find_sg remove_first
remove_sg name l = check (is_found (find_sg name l)) framework_error >> ok (remove_first name l)

-- `Config.get_config`: the texts of the groups and the rest of the configuration.
unfoldable pub get_config : List ServerGroup → Text → Text
unfolding get_group_config newline
get_config groups defconfig =
    join newline (map (λ g. (get_group_config g).0) groups ++ defconfig ∷ [])

-- A group never has more servers than Tempesta allows.
abbrev pub IsBounded : ServerGroup → Type 0
IsBounded g = length g.servers ≤ servers_in_group

-- If `add_server` succeeds, then the group has one server more and at most 32, and the number of
-- connections is at most 32.
pub add_server-IsBounded :
    (ip : Text) (port conns : ℕ) (g g' : ServerGroup)
    → add_server ip port conns g ≡ ok g'
    → IsBounded g' × (length g'.servers ≡ length g.servers + 1) × (conns ≤ server_conns_max)
unfolding add_server
add_server-IsBounded ip port conns g g' h =
    ground (arith, length-append g.servers (server_line ip port conns ∷ []))

-- No two groups have one name.
abbrev pub DistinctNames : List ServerGroup → Type 0
DistinctNames [] = Unit
DistinctNames (g ∷ l) = (find_sg g.name l ≡ none) × DistinctNames l

find_sg-append :
    (name : Text) (l : List ServerGroup) (g : ServerGroup)
    → find_sg name (l ++ g ∷ []) ≡ (elim (find_sg name l) [
      | none ↦ if same g.name name then some g else none
      | some h ↦ some h
    ])
unfolding find_sg
find_sg-append name [] g = ground arith
find_sg-append name (h ∷ l) g = ground (arith, find_sg-append name l g)

DistinctNames-append :
    (l : List ServerGroup) (g : ServerGroup)
    → find_sg g.name l ≡ none
    → DistinctNames l
    → DistinctNames (l ++ g ∷ [])
DistinctNames-append [] g h d = unfold find_sg in (refl, tt)
DistinctNames-append (k ∷ l) g h d = (
  unfold find_sg in ground (arith, find_sg-append k.name l g),
  DistinctNames-append l g (unfold find_sg in ground arith) d.1,
)

-- If `add_sg` succeeds on groups with distinct names, then the names stay distinct, the new group
-- is found under its name, and what is found under other names stays.
add_sg-DistinctNames :
    (g : ServerGroup) (l l' : List ServerGroup)
    → add_sg g l ≡ ok l'
    → DistinctNames l
    → DistinctNames l'
      × (find_sg g.name l' ≡ some g)
      × ((name : Text) → name ≢ g.name → find_sg name l' ≡ find_sg name l)
unfolding add_sg
add_sg-DistinctNames g l l' h d =
    let fresh : find_sg g.name l ≡ none = ground arith in
    let e : l ++ g ∷ [] ≡ l' = ground arith in
    rw (← e) (
      DistinctNames-append l g fresh d,
      ground (arith, find_sg-append g.name l g),
      λ name other. ground (arith, find_sg-append name l g),
    )

find_sg-remove_first :
    (name j : Text) (l : List ServerGroup)
    → DistinctNames l
    → find_sg j (remove_first name l) ≡ (if same name j then none else find_sg j l)
unfolding find_sg remove_first
find_sg-remove_first name j [] d = ground arith
find_sg-remove_first name j (g ∷ l) d = ground (arith, find_sg-remove_first name j l d.1)

-- If `remove_sg` succeeds on groups with distinct names, then the name was there, it is not found
-- any more, and what is found under other names stays.
remove_sg-find_sg :
    (name : Text) (l l' : List ServerGroup)
    → DistinctNames l
    → remove_sg name l ≡ ok l'
    → (find_sg name l ≢ none)
      × (find_sg name l' ≡ none)
      × ((j : Text) → j ≢ name → find_sg j l' ≡ find_sg j l)
unfolding remove_sg
remove_sg-find_sg name l l' d h =
    let there : find_sg name l ≢ none = ground arith in
    let e : remove_first name l ≡ l' = ground arith in
    rw (← e) (
      there,
      ground (arith, find_sg-remove_first name name l d),
      λ j other. ground (arith, find_sg-remove_first name j l d),
    )

-- If a group has a health monitor, then after two calls of `get_config` its options have grown by
-- the monitor's option twice.
pub get_group_config_twice :
    (g : ServerGroup) (c : ℕ) (hm : Text)
    → g.hm ≡ some (c ∷ hm)
    → (get_group_config (get_group_config g).1).1.options
      ≡ g.options
        ++ (codes " health " ++ ((c ∷ hm) ++ codes ";"))
        ++ (codes " health " ++ ((c ∷ hm) ++ codes ";"))
unfolding get_group_config
get_group_config_twice g c hm h = ground arith
