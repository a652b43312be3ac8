-- ===== src/ConfReader/Last.antt =====
-- What an entry of the table holds after a file was read, and what the module's variables do.
use device_samsung_msm8660_c.Common.{◌&&◌, Option, none, some, List, [], ◌∷◌, if◌then◌else◌}
use device_samsung_msm8660_c.Agps.Types.{Text}
use device_samsung_msm8660_c.ConfReader.Entry.{
  same_text, Numbers, Stored, Entry, Assignment, value_for, loc_set_config_entry, parse_line,
  set_entries, OwnVariables, set_own,
}

module _ (nm : Numbers) where
  abbrev pub with_assignment : Option (Assignment nm) → List (Assignment nm) → List (Assignment nm)
  with_assignment none vs = vs
  with_assignment (some v) vs = v ∷ vs

  -- The assignments of a file, in order.
  unfoldable pub assignments : List Text → List (Assignment nm)
  assignments [] = []
  assignments (line ∷ lines) = with_assignment (parse_line nm line) (assignments lines)

  -- What an assignment means for an entry, if it names it.
  abbrev pub meant : Entry nm → Assignment nm → Option (Stored nm)
  meant e v =
      if same_text e.param_name v.name && e.has_ptr then value_for nm e.param_type v else none

  abbrev pub or_else : Option (Stored nm) → Option (Stored nm) → Option (Stored nm)
  or_else none earlier = earlier
  or_else (some x) earlier = some x

  -- The last assignment for an entry.
  unfoldable pub last_meant : Entry nm → List (Assignment nm) → Option (Stored nm)
  last_meant e [] = none
  last_meant e (v ∷ vs) = or_else (last_meant e vs) (meant e v)

  -- What the entry is to be: the value of the last assignment, and whether there was one.
  abbrev pub settled : Entry nm → Option (Stored nm) → Entry nm
  settled e none = record e { param_set = if e.has_set then 0 else e.param_set }
  settled e (some x) = record e { stored = x; param_set = if e.has_set then 1 else e.param_set }

  abbrev read_entry : List (Assignment nm) → Entry nm → Entry nm
  read_entry [] e = e
  read_entry (v ∷ vs) e = read_entry vs (loc_set_config_entry nm v e)

  unfoldable set_lines : List Text → List (Entry nm) → List (Entry nm)
  set_lines [] table = table
  set_lines (line ∷ lines) table = set_lines lines (set_entries nm (parse_line nm line) table)

module _ (nm : Numbers) (ov : OwnVariables nm) where
  -- The module's variables after some assignments, in order.
  abbrev pub own_after : List (Assignment nm) → ov.Own → ov.Own
  own_after [] own = own
  own_after (v ∷ vs) own = own_after vs (set_own nm ov v own)
