-- ===== src/Regex/Tests.antt =====
-- src/Regex.cpp: the cases of test/regexTest.cpp, what the expressions of the findings do, and the
-- theorems at concrete trees.
use jhcommon.Prelude.{
  ℕ, suc, not, ◌&&◌, ◌≡◌, refl, true, false, Bool, List, some, none, [], ◌∷◌, arith, zero, ap, sym,
}
use Prim.Native.String.{String}
use jhcommon.Prelude.Text.{codes, text_eq}
use jhcommon.Regex.{
  Run, ok, undefined, ◌>>=◌, Element, Elements, element, last_sibling, insert_child, get_last_child,
  add_child, char_le, in_range, type_class, type_terminal, type_sequence, type_unknown,
}
use jhcommon.Regex.Siblings.{Forward, nil, cons}
use jhcommon.Regex.Tree.{Each}
use jhcommon.Regex.Prepare.Cases.{Kept}
use jhcommon.Regex.Prepare.Sound.{prepare-IsTree, new-IsTree}
use jhcommon.Regex.Match.Prefix.{parse-plain}
use jhcommon.Regex.Match.Terminal.{accepts}
use jhcommon.Regex.Match.Ranges.{process_terminal-belongs}
use jhcommon.Regex.Match.Rounds.{Ends}
use jhcommon.Regex.Match.Process.{Matcher, process_element-takes, process_element-Ends}
use jhcommon.Regex.Dump.{
  dump_tree, dump_from, dump_next, climb_all, dump_element, dump_terminal, digits,
}
use jhcommon.Regex.Prep.{ascend, descend, add_terminals, add_terminal}
use jhcommon.Regex.Prepare.{
  prepare, prepare_from, take_char, take_escape, close_group, next_alternative, open_group,
  class_range, close_class, open_class, set_range, assert_repeatable, set_repeat, escape,
  class_escape,
}
use jhcommon.Regex.Range.{range_from, no_overflow}
use jhcommon.Regex.Match.{
  Regex, new_regex, prepare_regex, parse, get_data, process_element, in_sequence, next_node, climb,
  try_from, take_one_more, repeat_while, process_terminal, class_from,
}
use jhcommon.Regex.Groups.{ParseData, open_capture, close_capture, captured, backtrack_groups}

abbrev holds : Run Bool → Bool
holds (ok b) = b
holds _ = false

abbrev faults : Run Bool → Bool
faults undefined = true
faults _ = false

-- a tree is dumped as the test says
abbrev dumps : String → String → Bool
dumps e d = holds do
  r ← prepare_regex (codes e) new_regex
  text ← dump_tree ((r.1).root)
  ok (text_eq text (codes d))

abbrev groups : ℕ → Regex → List String → Bool
groups i r [] = true
groups i r (g ∷ gs) = text_eq (get_data i r) (codes g) && groups (suc i) r gs

abbrev parsed : String → String → Run (Bool × Regex)
parsed e s = do r ← prepare_regex (codes e) new_regex; parse 100 (codes s) (r.1)

-- a string is matched, with these groups, or not
abbrev matches : String → String → List String → Bool
matches e s gs = holds (parsed e s >>= λ m. ok (m.0 && groups 0 (m.1) gs))

abbrev misses : String → String → Bool
misses e s = holds (parsed e s >>= λ m. ok (not (m.0)))

abbrev breaks : String → String → Bool
breaks e s = faults (parsed e s >>= λ m. ok (m.0))

-- test/regexTest.cpp, gPrepareTests
abbrev prepare_tests : Bool
prepare_tests =
    dumps "abc" "[S][T:a][T:b][T:c]"
    && dumps ".*bc" "[S][T:.]{0,-1}[T:b][T:c]"
    && dumps "\\tbc" "[S][T:0x9][T:b][T:c]"
    && dumps "[a-zA-Z0-9_]?" "[S][C]{0,1}[T:a-z][T:A-Z][T:0-9][T:_]"
    && dumps "[^_sA-Z0-9]" "[S][C^][T:_][T:s][T:A-Z][T:0-9]"
    && dumps "\\W+[0-9]*" "[S][C^]{1,-1}[T:a-z][T:A-Z][T:0-9][T:_][C]{0,-1}[T:0-9]"
    && dumps "[\\d\\w@#]" "[S][C][T:0-9][T:a-z][T:A-Z][T:0-9][T:_][T:@][T:#]"
    && dumps "[0-9]{14,180}" "[S][C]{14,180}[T:0-9]"
    && dumps "(a|b+|c)*" "[S][O]{0,-1}[S][T:a][S][T:b]{1,-1}[S][T:c]"
    && dumps "[\\*\\]]*" "[S][C]{0,-1}[T:*][T:]]"
    && dumps "([a-z]([0-9]*|[^a-z]*))"
        "[S][O][S][C][T:a-z][O][S][C]{0,-1}[T:0-9][S][C^]{0,-1}[T:a-z]"
    && not (holds (prepare_regex (codes "[*]*") new_regex >>= λ r. ok (r.0)))

-- test/regexTest.cpp, gParseTests; its last one, (ab|cd|efg)+ on abcd, finds the first group alone
abbrev parse_tests : Bool
parse_tests =
    matches "[a-z]" "a" []
    && misses "[a-z]" "0"
    && matches "[^a-z]" "0" []
    && matches "bet[a-z]s" "betas" []
    && matches "[a-z]*[0-9]*" "foo" []
    && misses "[a-z][0-9]" "foo7"
    && matches "\\w*[0-9]{2}" "foo753" []
    && misses "\\w*[0-9]{2}" "foo7"
    && matches "\\w*abc" "fooabc" []
    && matches "(([a-z]*)([0-9]*))" "foo7" ("foo7" ∷ "foo" ∷ "7" ∷ [])
    && matches "(\\w*)abc" "fooabc" ("foo" ∷ [])
    && matches "(([a-z]*)a([0-9]*))" "fooa7" ("fooa7" ∷ "foo" ∷ "7" ∷ [])
    && matches "(ab|cd|efg)" "efg" ("efg" ∷ [])
    && misses "(ab|cd|efg)" "fg"
    && matches "(ab|cd|efg)+" "abcd" ("ab" ∷ "" ∷ [])

-- One more than the maximum is taken; an open range has the maximum 0; an alternative starts where
-- the one before it gave up; `.` takes the NUL; nothing below the root, a repetition of nothing, and one
-- beyond what an `int` holds.
abbrev odd_tests : Bool
odd_tests =
    matches "ab" "aab" []
    && misses "a{2,}" "aaa"
    && misses "[a-c]+(x|yz)" "abcyz"
    && breaks "a.*" "abc"
    && breaks "" "abc"
    && breaks "*a" "abc"
    && breaks "a{2147483648}" "a"
    && misses "a{2147483647}" "b"
    && dumps "[a\\W]" "[S][C^][T:a][T:a-z][T:A-Z][T:0-9][T:_]"
    && dumps "([)])" "[S][O][S][C][T:)]"

-- what is prepared twice is one expression behind the other, and the groups of the first parse stay
abbrev twice : Bool
twice = holds do
  r ← prepare_regex (codes "(a)") new_regex
  r ← parse 100 (codes "a") (r.1)
  r ← prepare_regex (codes "(b)") (r.1)
  r ← parse 100 (codes "ab") (r.1)
  ok (r.0 && groups 0 (r.1) ("a" ∷ "a" ∷ "b" ∷ []))

regex_tests : (prepare_tests && parse_tests && odd_tests && twice) ≡ true
unfolding prepare prepare_from take_char take_escape close_group next_alternative open_group
    class_range close_class open_class set_range range_from no_overflow assert_repeatable set_repeat
    escape class_escape ascend descend add_terminals add_terminal last_sibling insert_child
    get_last_child add_child char_le in_range prepare_regex parse get_data process_element
    in_sequence next_node climb open_capture close_capture captured try_from take_one_more
    repeat_while backtrack_groups process_terminal class_from dump_tree dump_from dump_next
    climb_all dump_element dump_terminal digits
regex_tests = refl

-- the tree of [a-c]+
abbrev letters : Element
letters = record (element type_class) {
  parent = some 0;
  child = some 2;
  repeat_min = 1;
  repeat_max = none;
}

abbrev a_to_c : Element
a_to_c = record (element type_terminal) {
  parent = some 1;
  term_start_char = 97;
  term_end_char = 99;
}

abbrev tree : Elements
tree = record (element type_sequence) { child = some 1 } ∷ letters ∷ a_to_c ∷ []

next_eq : (e x : Element) → some x ≡ some e → e.next ≡ x.next
next_eq e x g = let q : x ≡ e = cc in ap (λ y. y.next) (sym q)

no_next : Forward tree
no_next zero n e g q = let z : e.next ≡ none = next_eq e _ g in absurd cc
no_next (suc zero) n e g q = let z : e.next ≡ none = next_eq e _ g in absurd cc
no_next (suc (suc zero)) n e g q = let z : e.next ≡ none = next_eq e _ g in absurd cc
no_next (suc (suc (suc k))) n e g q = absurd cc

letters-Matcher : Matcher tree 1 letters (a_to_c ∷ [])
unfolding in_sequence accepts in_range char_le
letters-Matcher = record {
  forward = no_next;
  at = refl;
  children = cons refl nil;
  sequence = refl;
  kind = refl;
  stops = refl;
}

abbrev start : ParseData
start = record { tree = tree; groups = []; cur_pos = 0; backtrack_pos = 0; match_count = 0 }

process_terminal-belongs_example : process_terminal (codes "cb") tree 1 1 ≡ ok true
process_terminal-belongs_example =
    process_terminal-belongs (codes "cb") tree 1 1 98 letters (a_to_c ∷ []) no_next refl
      (cons refl nil) ((omega arith, omega arith), ((omega arith, omega arith), tt)) refl
      (omega arith)

process_element-takes_example :
    (g : ParseData) × (process_element 1 (codes "abcx") 1 start ≡ ok (true, g))
    × (g.cur_pos ≡ 3)
    × (g.groups ≡ [])
    × (g.tree ≡ tree)
unfolding accepts in_range char_le
process_element-takes_example =
    process_element-takes (codes "abcx") 1 0 letters (a_to_c ∷ []) start letters-Matcher
      (omega arith) (omega arith)

process_element-Ends_example : Ends (process_element 1 (codes "abcx") 1 start)
process_element-Ends_example =
    process_element-Ends (codes "abcx") 1 0 letters (a_to_c ∷ []) start letters-Matcher
      (omega arith)

prepare-IsTree_example : Each (Kept 5) (prepare (codes "[a-c]") (element type_unknown ∷ []))
prepare-IsTree_example = prepare-IsTree (codes "[a-c]") (element type_unknown ∷ []) new-IsTree

parse-plain_example :
    (r r2 : Regex) × (prepare_regex (codes "aab") new_regex ≡ ok (true, r))
    × (parse 6 (codes "aaba") r ≡ ok (true, r2))
parse-plain_example =
    parse-plain 97 (codes "ab") (codes "a") 6 (refl, (refl, (refl, tt)))
      ((omega arith, omega arith), ((omega arith, omega arith), ((omega arith, omega arith), tt)))
      (omega arith, (omega arith, (omega arith, (omega arith, tt)))) (omega arith)
