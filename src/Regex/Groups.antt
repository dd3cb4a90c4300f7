-- ===== src/Regex/Groups.antt =====
-- src/Regex.cpp: the groups of a parse, opened, closed and cut when the matcher goes back.
use jhcommon.Prelude.{
  ℕ, ◌-◌, some, List, [], ◌∷◌, ◌++◌, length, get_elem?, set, take, drop, ltb, if◌then◌else◌,
}
use jhcommon.Prelude.Text.{Text}
use jhcommon.Regex.{Run, ok, undefined, ◌>>=◌, defined, Elements, elem_at, update, from_null}

pub record GroupData : Type 0 where
  pub start_pos : ℕ
  pub end_pos : ℕ
  pub string : Text

-- `ParseData` without the string, the groups and the tree
pub record ParseData : Type 0 where
  pub tree : Elements
  pub groups : List GroupData
  pub cur_pos : ℕ
  pub backtrack_pos : ℕ
  pub match_count : ℕ

-- `backtrackGroups`; `erase` throws at a place behind the end
unfoldable pub backtrack_groups : List GroupData → ℕ → Run (List GroupData)
backtrack_groups [] cur = ok []
backtrack_groups (g ∷ gs) cur = do
  g ←
      if ltb cur g.end_pos
      then (if ltb (length g.string) (g.end_pos - cur)
          then undefined
          else ok (record g {
            string = take (length g.string - (g.end_pos - cur)) g.string;
            end_pos = cur;
          }))
      else ok g
  gs ← backtrack_groups gs cur
  ok (g ∷ gs)

-- `assign( string, start, cur - start )`; a negative length is the rest of the string
unfoldable pub captured : Text → ℕ → ℕ → Run Text
captured s start cur =
    if ltb (length s) start
    then undefined
    else ok (if ltb cur start then drop start s else take (cur - start) (drop start s))

-- the group of an alternative that matched is closed
unfoldable pub close_capture : Text → ℕ → ParseData → Run ParseData
close_capture s cur d = do
  e ← elem_at d.tree cur
  n ← from_null e.group_num
  g ← defined (get_elem? d.groups n)
  text ← captured s g.start_pos d.cur_pos
  ok (record d { groups = set d.groups n (record g { end_pos = d.cur_pos; string = text }) })

unfoldable pub open_capture : ℕ → ParseData → Run ParseData
open_capture cur d = do
  t ← update d.tree cur (λ e. record e { group_num = some (length d.groups) })
  ok (record d {
    tree = t;
    groups = d.groups ++ (record { start_pos = d.cur_pos; end_pos = 0; string = [] } ∷ []);
  })
