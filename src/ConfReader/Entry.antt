-- ===== src/ConfReader/Entry.antt =====
-- `loc_set_config_entry` and `loc_read_conf`: lines of a file against a table of parameters.
use device_samsung_msm8660_c.Common.{
  codes, ℕ, Bool, true, false, ◌&&◌, ◌||◌, not, Option, none, some, List, [], ◌∷◌, ◌++◌, length,
  take, ltb, ◌==◌, if◌then◌else◌, is_nil,
}
use device_samsung_msm8660_c.Agps.Types.{Text}
use device_samsung_msm8660_c.ConfReader.Trim.Trimmed.{trimmed}

-- `strcmp(a, b) == 0`
unfoldable pub same_text : Text → Text → Bool
same_text [] [] = true
same_text [] (d ∷ u) = false
same_text (c ∷ t) [] = false
same_text (c ∷ t) (d ∷ u) = c == d && same_text t u

-- The numbers of the C library, and what it reads from a text: `atoi`, `strtol` to base 16 and `atof`.
pub record Numbers : Type 1 where
  pub Int : Type 0
  pub Double : Type 0
  pub zero_double : Double
  pub atoi : Text → Int
  pub strtol_hex : Text → Int
  pub atof : Text → Double

-- `param_type`: 's', 'n', 'f' or any other.
pub data ParamType : Type 0 where
  text_param number_param float_param other_param : ParamType

module _ (nm : Numbers) where
  -- What `param_ptr` points to; `untouched` is what stood there before.
  pub data Stored : Type 0 where
    untouched : Stored
    text_value : Text → Stored
    number_value : nm.Int → Stored
    float_value : nm.Double → Stored

  -- `loc_param_s_type`, with the values that its two pointers lead to. `has_ptr` and `has_set` say
  -- whether they are not null.
  pub record Entry : Type 0 where
    pub param_name : Text
    pub has_ptr : Bool
    pub has_set : Bool
    pub param_type : ParamType
    pub stored : Stored
    pub param_set : ℕ

  -- `loc_param_v_type`
  pub record Assignment : Type 0 where
    pub name : Text
    pub str_value : Text
    pub int_value : nm.Int
    pub double_value : nm.Double

  -- `LOC_MAX_PARAM_STRING`
  abbrev pub max_string : ℕ
  max_string = 80

  -- What a parameter type stores: "NULL" stands for an empty string, and a string is cut.
  abbrev pub value_for : ParamType → Assignment → Option Stored
  value_for text_param v =
      if same_text v.str_value (codes "NULL")
      then some (text_value [])
      else some (text_value (take max_string v.str_value))
  value_for number_param v = some (number_value v.int_value)
  value_for float_param v = some (float_value v.double_value)
  value_for other_param v = none

  abbrev pub set_entry : Option Stored → Entry → Entry
  set_entry none e = e
  set_entry (some x) e = record e { stored = x; param_set = if e.has_set then 1 else e.param_set }

  -- `loc_set_config_entry`
  unfoldable pub loc_set_config_entry : Assignment → Entry → Entry
  unfolding same_text
  loc_set_config_entry v e =
      if same_text e.param_name v.name && e.has_ptr
      then set_entry (value_for e.param_type v) e
      else e

  -- `strtok_r` with "=": leading delimiters are passed, and the token ends before the next, which is
  -- taken too; none where no character is left.
  unfoldable pub skip_delimiters : Text → Text
  skip_delimiters [] = []
  skip_delimiters (c ∷ t) = let rest = skip_delimiters t in if c == 61 then rest else c ∷ t

  unfoldable pub token : Text → Text × Text
  token [] = ([], [])
  token (c ∷ t) = let (word, rest) = token t in if c == 61 then ([], t) else (c ∷ word, rest)

  abbrev pub strtok : Text → Option (Text × Text)
  strtok t = let from = skip_delimiters t in if is_nil from then none else some (token from)

  -- `param_str_value[0] == '0' && tolower(param_str_value[1]) == 'x'`, and the digits behind.
  abbrev pub hex_digits : Text → Option Text
  hex_digits (z ∷ x ∷ t) = if z == 48 && (x == 120 || x == 88) then some t else none
  hex_digits _ = none

  -- A hexadecimal value leaves the 0 of `memset` for the floating-point one.
  abbrev pub assignment_of : Text → Text → Assignment
  assignment_of name value = elim (hex_digits value) [
    | some t ↦ record {
      name = name;
      str_value = value;
      int_value = nm.strtol_hex t;
      double_value = nm.zero_double;
    }
    | none ↦ record {
      name = name;
      str_value = value;
      int_value = nm.atoi value;
      double_value = nm.atof value;
    }
  ]

  -- The assignment of a line: name and value are trimmed, and what is behind a second "=" is dropped.
  unfoldable pub parse_line : Text → Option Assignment
  unfolding skip_delimiters token trimmed
  parse_line line = elim (strtok line) [
    | none ↦ none
    | some (name, rest) ↦ elim (strtok rest) [
      | none ↦ none
      | some (value, more) ↦ some (assignment_of (trimmed name) (trimmed value))
    ]
  ]

  -- `fgets` with `LOC_MAX_PARAM_LINE`: a line ends behind its line feed, or after 79 characters.
  abbrev pub line_room : ℕ
  line_room = 79

  unfoldable pub lines_from : Text → Text → List Text
  lines_from line [] = if is_nil line then [] else line ∷ []
  lines_from line (c ∷ t) =
      let longer = line ++ c ∷ [] in
      let full = c == 10 || not (ltb (length longer) line_room) in
      let rest = lines_from (if full then [] else longer) t in if full then longer ∷ rest else rest

  unfoldable pub map_entries : (Entry → Entry) → List Entry → List Entry
  map_entries f [] = []
  map_entries f (e ∷ es) = f e ∷ map_entries f es

  abbrev pub set_entries : Option Assignment → List Entry → List Entry
  set_entries none table = table
  set_entries (some v) table = map_entries (loc_set_config_entry v) table

  abbrev pub clear_set : Entry → Entry
  clear_set e = if e.has_set then record e { param_set = 0 } else e

  -- The module's own variables `DEBUG_LEVEL` and `TIMESTAMP`, of one byte each: how their bytes lie is
  -- the compiler's matter, and an `int` is stored through a pointer to each, so that it may change the
  -- other one too.
  pub record OwnVariables : Type 1 where
    pub Own : Type 0
    pub put_defaults : Own → Own
    pub put_debug_level : nm.Int → Own → Own
    pub put_timestamp : nm.Int → Own → Own

module _ (nm : Numbers) (ov : OwnVariables nm) where
  -- `loc_default_parameters`; what the logger is told is left out.
  unfoldable pub loc_default_parameters : ov.Own → ov.Own
  loc_default_parameters own = ov.put_defaults own

  -- The loop over `loc_parameter_table`, whose two entries are of type 'n' and without a flag.
  unfoldable pub set_own : Assignment nm → ov.Own → ov.Own
  unfolding same_text
  set_own v own =
      let own' =
        if same_text (codes "DEBUG_LEVEL") v.name
        then ov.put_debug_level v.int_value own
        else own in
      if same_text (codes "TIMESTAMP") v.name then ov.put_timestamp v.int_value own' else own'

  abbrev pub set_own_from : Option (Assignment nm) → ov.Own → ov.Own
  set_own_from none own = own
  set_own_from (some v) own = set_own v own

  -- The loop over the lines. No entry of the caller's table points to the module's variables.
  unfoldable pub read_lines : List Text → List (Entry nm) → ov.Own → List (Entry nm) × ov.Own
  unfolding parse_line map_entries loc_set_config_entry set_own
  read_lines [] table own = (table, own)
  read_lines (line ∷ lines) table own =
      read_lines lines (set_entries nm (parse_line nm line) table)
        (set_own_from (parse_line nm line) own)

  -- `loc_read_conf`, on what the file holds, if it can be opened, the caller's table, and the module's
  -- variables.
  unfoldable pub loc_read_conf : Option Text → List (Entry nm) → ov.Own → List (Entry nm) × ov.Own
  unfolding read_lines map_entries lines_from loc_default_parameters
  loc_read_conf none table own = (table, loc_default_parameters own)
  loc_read_conf (some content) table own =
      read_lines (lines_from nm [] content) (map_entries nm (clear_set nm) table)
        (loc_default_parameters own)
