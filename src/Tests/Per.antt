-- ===== src/Tests/Per.antt =====
-- Runs of `Per` with a gdb that answers every read with zeros.
use vimgdb.Base.{
  ℕ, zero, suc, ◌+◌, ◌/◌, ◌%◌, ◌^◌, ◌-◌, ◌≡◌, refl, arith, true, false, List, [], ◌∷◌, none, some,
  length, ◌==◌, if◌then◌else◌,
}
use vimgdb.Base.Bits.{bit_and, bit_or}
use vimgdb.Base.Runs.{pure, ◌>>=◌, gets, modify, on, crash}
use vimgdb.Common.Text.{Bytes, codes, char_at}
use vimgdb.Gui.Interface.{Gui}
use vimgdb.Gdb.Events.{Handlers}
use vimgdb.Command.Memory.{Memory}
use vimgdb.Command.Memory.View.{Chunk}
use vimgdb.Command.Per.{
  Bits, BitsItem, Register, Range, register, headline, RangeItem, new_bits, build_ranges,
}
use vimgdb.Command.Per.Print.{Formats, bit_val}
use vimgdb.Command.Per.Fields.{made, bit_val-new_bits}
use vimgdb.Command.Per.Check.{Ranges}
use vimgdb.Command.Per.View.{set, fold, Pers, Calls}
use vimgdb.Command.Per.Exec.{cmd_per_exec}

abbrev nibble : BitsItem
nibble = record { name = codes "mode"; idx = 4; nbits = 4 }

-- The bits 4 to 7 of 0x12a5.
mode_value : bit_val 4773 (made nibble) ≡ some 10
unfolding bit_val bit_and
mode_value = refl

bit_val-new_bits_example :
    (f : Bits) × (new_bits nibble ≡ some f) × (bit_val 4773 f ≡ some ((4773 / 2 ^ 4) % 2 ^ 4))
bit_val-new_bits_example = bit_val-new_bits nibble 4773 (omega arith) (omega arith)

-- A field above the lower 32 bits of a register: the shift is undefined.
abbrev upper : BitsItem
upper = record { name = codes "up"; idx = 40; nbits = 4 }

upper_field : bit_val 4773 (made upper) ≡ none
unfolding bit_val
upper_field = refl

abbrev items : List RangeItem
items =
    record {
      base = 4096;
      size = 4;
      sections =
          record {
            name = codes "timer";
            regs =
                headline (codes "control")
                ∷ register (codes "CR") [] 2 2 (record { big = false; little = true }) (nibble ∷ [])
                ∷ [];
          }
          ∷ [];
    }
    ∷ []

abbrev cr : Register
cr = record {
  name = codes "CR";
  desc = [];
  offset = 2;
  nbytes = 2;
  opt = record { big = false; little = true };
  bits = made nibble ∷ [];
  parent = none;
}

abbrev head : Register
head = record {
  name = codes "control";
  desc = [];
  offset = 0;
  nbytes = 0;
  opt = record { big = false; little = false };
  bits = [];
  parent = none;
}

abbrev built : Ranges
built =
    (
      3,
      record {
        base = 4096;
        size = 4;
        sections =
            (2, record { name = codes "timer"; expanded = false; regs = (0, head) ∷ (1, cr) ∷ [] })
            ∷ [];
        mem = none;
      },
    )
    ∷ []

-- The actions of the grammar.
grammar_actions : build_ranges items 0 ≡ some (built, 4)
unfolding build_ranges new_bits ◌>>=◌ pure gets modify bit_or
grammar_actions = refl

abbrev zeros : ℕ → Bytes
zeros zero = []
zeros (suc n) = 48 ∷ 48 ∷ zeros n

abbrev chunk : ℕ → Chunk
chunk n = record { begin = codes "0x1000"; content = zeros n; length = n }

abbrev formats : Formats
formats = record {
  strtoll = λ s. length s;
  hex = λ p n. (48 + n % 10) ∷ [];
  decimal = λ n. (48 + n % 10) ∷ [];
}

abbrev calls : Calls ℕ
calls = record {
  subcmd = λ s.
      if char_at s 0 == b'f' then some fold else if char_at s 0 == b's' then some set else none;
  atoi = λ s. char_at s 0 - 48;
  format = λ t. t;
  opens = λ t. true;
  perparse = λ t. some (record { ok = true; ranges = items; end_little = false });
  acquire = λ at n g. (some (chunk n), g + 1);
  read = λ at n g. (some (chunk n), g + 1);
  write = λ at v n g. (true, g);
}

abbrev window : Gui Bytes
window = record {
  win_getid = λ name u. some 2;
  win_create = λ name u. some (some 2, u);
  win_atomic = λ win en u. some (true, u);
  win_clear = λ win u. some (tt, []);
  win_print = λ win t u. some (tt, t);
  win_anno_add = λ win l s f b u. some (true, u);
  win_anno_delete = λ win l s u. some (true, u);
  win_cursor_set = λ win l c u. some (true, u);
}

abbrev handlers : Handlers (Pers ℕ Bytes)
handlers = record {
  get_changed = λ s. some (true, s);
  stop_hdlr_lst = [];
  exit_hdlr_lst = [];
  file_exists = λ name. true;
}

abbrev timer : Memory
timer = record {
  begin = codes "0x1000";
  content = codes "0000a512";
  content_old = [];
  length = 4;
  alignment = 8;
  expanded = true;
}

abbrev range : Range
range = record {
  base = 4096;
  size = 4;
  sections =
      (
        2,
        record {
          name = codes "timer";
          expanded = true;
          regs = (0, head) ∷ (1, record cr { parent = some 3 }) ∷ [];
        },
      )
      ∷ [];
  mem = some timer;
}

-- The window shows a headline at line 2 and a register at line 3.
abbrev session : Pers ℕ Bytes
session = record {
  per_file = some (codes "t.per");
  range_lst = (3, range) ∷ [];
  end_little = false;
  line_secs = record { line = 1; item = 2 } ∷ [];
  line_regs = record { line = 2; item = 0 } ∷ record { line = 3; item = 1 } ∷ [];
  fresh = 4;
  gdb = 0;
  ui = [];
  files = [];
}

-- A value for a headline is a read through the null pointer of its range.
headline_set :
    cmd_per_exec window calls formats handlers
      (codes "Per" ∷ codes "set" ∷ codes "2" ∷ codes "1" ∷ [])
      session
    ≡ none
unfolding cmd_per_exec on ◌>>=◌ gets pure crash
headline_set = refl
