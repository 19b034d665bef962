-- ===== src/KernelLab.antt =====
-- kernel_lab/kernel_lab.c: a module of the kernel with a file under /proc.
pub mod Reads
pub mod Readback
mod Tests
use Prim.Native.String.{String}
use linux_practice.Base.{
  ℕ, zero, suc, ◌+◌, ◌-◌, ◌%◌, ◌^◌, min, Bool, Option, none, some, List, [], ◌∷◌, ◌++◌, ◌==◌,
  if◌then◌else◌,
}
use linux_practice.Base.Int.{ℤ, pos}
use linux_practice.Base.Text.{codes}

abbrev pub message_buffer_size : ℕ
message_buffer_size = 256

-- The functions of the kernel on texts. strim() gives the text that it leaves and the one that it points
-- to; scnprintf() is given all that its format says; simple_read_from_buffer() gives the bytes that it
-- copies, at most so many from a position, and the new position.
pub record Kernel : Type 0 where
  pub isspace : ℕ → Bool
  pub strim : List ℕ → List ℕ × List ℕ
  pub strscpy : (size : ℕ) → List ℕ → List ℕ
  pub scnprintf : (size : ℕ) → List ℕ → List ℕ
  pub simple_read_from_buffer : (count position : ℕ) → List ℕ → List ℕ × ℕ
  pub decimal : ℤ → List ℕ

-- The static variables.
pub record Lab : Type 0 where
  pub greeting : List ℕ
  pub repeat : ℤ
  pub last_message : List ℕ
  pub write_count : ℕ

-- What the kernel tells of the moment and of the process that reads.
pub record Moment : Type 0 where
  pub uptime_ms : ℕ
  pub pid : ℤ
  pub comm : List ℕ
  pub tv_sec : ℤ

abbrev pub line : String → List ℕ → List ℕ → List ℕ
line label value rest = codes label ++ (value ++ (codes "\n" ++ rest))

-- What the format of kernel_lab_read says.
unfoldable pub report : Kernel → Moment → Lab → List ℕ
report k now s = line "module: " (codes "kernel_lab") (
    line "greeting: " s.greeting (
      line "repeat: " (k.decimal s.repeat) (
        line "writes: " (k.decimal (pos s.write_count)) (
          line "last_message: " s.last_message (
            line "uptime_ms: " (k.decimal (pos now.uptime_ms)) (
              line "reader_pid: " (k.decimal now.pid) (
                line "reader_comm: " now.comm
                  (line "real_time_sec: " (k.decimal now.tv_sec) []))))))))

-- The bytes that user_buffer gets, and the new position.
unfoldable pub kernel_lab_read : Kernel → Moment → Lab → (count position : ℕ) → List ℕ × ℕ
kernel_lab_read k now s count position =
    k.simple_read_from_buffer count position (k.scnprintf 512 (report k now s))

-- A write of `count` bytes; copy_from_user() for so many gives them, or a fault.
pub record Write : Type 0 where
  pub count : ℕ
  pub copy_from_user : ℕ → Option (List ℕ)

-- -EFAULT, or the count
pub data Result : Type 0 where
  efault : Result
  accepted : (count : ℕ) → Result

-- The text in a buffer: what stands before the first null byte.
abbrev pub text : List ℕ → List ℕ
text [] = []
text (c ∷ cs) = if c == 0 then [] else c ∷ text cs

abbrev pub on_copy : Kernel → ℕ → Lab → Option (List ℕ) → Result × Lab
on_copy k count s none = (efault, s)
on_copy k count s (some buffer) = (
  accepted count,
  record s {
    last_message = k.strscpy message_buffer_size (k.strim (text buffer)).0;
    write_count = (s.write_count + 1) % 2 ^ 32;
  },
)

unfoldable pub kernel_lab_write : Kernel → Write → Lab → Result × Lab
kernel_lab_write k w s =
    on_copy k w.count s (w.copy_from_user (min w.count (message_buffer_size - 1)))

-- kernel_lab_init, whose text of the module's parameter is `greeting`; `created` says whether
-- proc_create() gives an entry, without which the module is not loaded.
unfoldable pub kernel_lab_init : Kernel → (created : Bool) → List ℕ → ℤ → Option Lab
kernel_lab_init k created greeting repeat =
    if created
    then some (record {
      greeting = greeting;
      repeat = repeat;
      last_message = k.strscpy message_buffer_size greeting;
      write_count = 0;
    })
    else none
