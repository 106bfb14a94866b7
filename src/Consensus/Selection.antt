-- ===== src/Consensus/Selection.antt =====
-- crates/qv-consensus/src/chain_state.rs: the choice between two chains (`maxvalid_bg`), and the
-- block locator with the answer to it. A chain is listed from genesis to its tip; `usize` has 64
-- bits, so `u64::try_from` of a length is the length.
pub mod Agreement
pub mod Built
pub mod Short
pub mod Locator
use l1_chain.Base.{
  ℕ, zero, suc, ◌+◌, ◌-◌, List, [], ◌∷◌, ◌++◌, Bool, true, false, ◌&&◌, not, ltb, leb, ◌==◌,
  if◌then◌else◌, Option, none, some, length, get_elem?, drop,
}
use l1_chain.Base.Word.{saturating_add, saturating_mul}
use l1_chain.Consensus.Chain.{ChainEntry, zero_hash}

pub data ChainPreference : Type 0 where
  keep_local : ChainPreference
  adopt_candidate : ChainPreference

-- `common_prefix_len`
unfoldable pub common_prefix_len : List ChainEntry → List ChainEntry → ℕ
common_prefix_len [] candidate = 0
common_prefix_len (a ∷ local) [] = 0
common_prefix_len (a ∷ local) (b ∷ candidate) =
    if a.hash == b.hash then suc (common_prefix_len local candidate) else 0

-- The filter of `density_in_window`
unfoldable pub count_in_window : List ChainEntry → ℕ → ℕ → ℕ
count_in_window [] fork_slot window_end = 0
count_in_window (e ∷ es) fork_slot window_end =
    (if ltb fork_slot e.slot && leb e.slot window_end then 1 else 0)
    + count_in_window es fork_slot window_end

-- `density_in_window`
unfoldable pub density_in_window : List ChainEntry → ℕ → ℕ → ℕ → ℕ
density_in_window chain common fork_slot window_end =
    count_in_window (drop common chain) fork_slot window_end

-- `chain.last()`
unfoldable pub last_entry : List ChainEntry → Option ChainEntry
last_entry [] = none
last_entry (e ∷ []) = some e
last_entry (e ∷ f ∷ es) = last_entry (f ∷ es)

-- The tie-break of `longer_chain`
unfoldable pub lower_tip : Option ChainEntry → Option ChainEntry → ChainPreference
lower_tip (some c) (some l) = if ltb c.hash l.hash then adopt_candidate else keep_local
lower_tip (some c) none = keep_local
lower_tip none l = keep_local

-- `longer_chain`
unfoldable pub longer_chain : List ChainEntry → List ChainEntry → ChainPreference
unfolding last_entry lower_tip
longer_chain local candidate =
    if ltb (length local) (length candidate)
    then adopt_candidate
    else if ltb (length candidate) (length local)
    then keep_local
    else lower_tip (last_entry candidate) (last_entry local)

-- `maxvalid_bg`, from the slot of the last common block on
unfoldable pub prefer_from :
    List ChainEntry → List ChainEntry → ℕ → ℕ → ℕ → Option ChainEntry → ChainPreference
unfolding density_in_window longer_chain saturating_add
prefer_from local candidate k s common none = keep_local
prefer_from local candidate k s common (some fork) =
    if leb (length local - common) k
    then longer_chain local candidate
    else (let window_end = saturating_add fork.slot s in
        if ltb (density_in_window local common fork.slot window_end)
          (density_in_window candidate common fork.slot window_end)
        then adopt_candidate
        else keep_local)

-- `maxvalid_bg`
unfoldable pub maxvalid_bg : List ChainEntry → List ChainEntry → ℕ → ℕ → ChainPreference
unfolding common_prefix_len prefer_from
maxvalid_bg local candidate k s =
    let common = common_prefix_len local candidate in
    if common == 0
    then keep_local
    else prefer_from local candidate k s common (get_elem? local (common - 1))

-- `if let Some(e) = chain.get(idx) { locator.push(e.hash) }`
unfoldable pub push_hash : List ℕ → Option ChainEntry → List ℕ
push_hash locator none = locator
push_hash locator (some e) = locator ++ e.hash ∷ []

-- The loop of `build_locator`, on fuel; at its end the locator is what it has pushed.
unfoldable pub locator_loop : ℕ → List ChainEntry → ℕ → ℕ → List ℕ → Option (List ℕ)
unfolding push_hash saturating_mul
locator_loop zero chain idx stride locator = none
locator_loop (suc fuel) chain idx stride locator =
    let pushed = push_hash locator (get_elem? chain idx) in
    let dense = locator_loop fuel chain (idx - 1) stride pushed in
    let sparse = locator_loop fuel chain (idx - stride) (saturating_mul stride 2) pushed in
    if idx == 0 then some pushed else if ltb (length pushed) 10 then dense else sparse

-- `build_locator`; a round takes at least one from the index, so it has a round for each entry.
unfoldable pub build_locator : List ChainEntry → Option (List ℕ)
unfolding locator_loop
build_locator [] = some []
build_locator (e ∷ es) = locator_loop (suc (length es)) (e ∷ es) (length es) 1 []

-- `chain.iter().position(|e| &e.hash == h)`
unfoldable pub position : List ChainEntry → ℕ → Option ℕ
position [] h = none
position (e ∷ es) h =
    if e.hash == h then some 0 else elim (position es h) [ none ↦ none | some i ↦ some (suc i) ]

-- `locator.iter().find_map(...).map_or(0, |pos| pos.saturating_add(1))`
unfoldable pub start_index : List ChainEntry → List ℕ → ℕ
unfolding position
start_index chain [] = 0
start_index chain (h ∷ hs) =
    let rest = start_index chain hs in elim (position chain h) [ none ↦ rest | some i ↦ suc i ]

-- The loop of `select_headers_for_locator`, with the room left below `max`
unfoldable pub collect_hashes : List ChainEntry → ℕ → ℕ → List ℕ
collect_hashes [] stop room = []
collect_hashes (e ∷ es) stop zero = []
collect_hashes (e ∷ es) stop (suc room) =
    let rest = collect_hashes es stop room in
    e.hash ∷ (if not (stop == zero_hash) && (e.hash == stop) then [] else rest)

-- `select_headers_for_locator`
unfoldable pub select_headers_for_locator : List ChainEntry → List ℕ → ℕ → ℕ → List ℕ
unfolding start_index collect_hashes
select_headers_for_locator chain locator stop max =
    collect_hashes (drop (start_index chain locator) chain) stop max
