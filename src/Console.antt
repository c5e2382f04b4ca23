-- ===== src/Console.antt =====
-- kernel/drivers/console.c: the queue of input characters between the keyboard or serial interrupt
-- and the reader. A character is a byte. The ring has 1024 places, of which one stays free.
use c_loyha.Base.{ℕ, ◌+◌, ◌-◌, ◌%◌, ◌<◌, Bool, not, ◌==◌}
use c_loyha.Base.{if◌then◌else◌}

-- `INPUT_BUFFER_SIZE`
abbrev pub input_buffer_size : ℕ
input_buffer_size = 1024

pub record Console : Type 0 where
  pub input_buffer : ℕ → ℕ
  pub input_head : ℕ
  pub input_tail : ℕ

unfoldable pub console_input_flush : Console → Console
console_input_flush k = record k { input_tail = k.input_head }

abbrev pub write_byte : (ℕ → ℕ) → ℕ → ℕ → ℕ → ℕ
write_byte mem i b j = if j == i then b else mem j

-- The part of `console_input_char` after the signal keys.
unfoldable pub enqueue : Console → ℕ → Console
enqueue k c =
    let following = (k.input_head + 1) % input_buffer_size in
    if following == k.input_tail then k else record k {
      input_buffer = write_byte k.input_buffer k.input_head c;
      input_head = following;
    }

unfoldable pub console_input_available : Console → Bool
console_input_available k = not (k.input_tail == k.input_head)

-- What `console_getc` does: it returns a character or -1, or it sleeps and starts over.
pub data Getc : Type 0 where
  char : ℕ → Console → Getc
  interrupted : Getc
  sleeps : Getc

unfoldable pub console_getc : Console → Bool → Getc
console_getc k signalled =
    if k.input_tail == k.input_head
    then (if signalled then interrupted else sleeps)
    else char (k.input_buffer k.input_tail)
        (record k { input_tail = (k.input_tail + 1) % input_buffer_size })

-- `serial_irq` on one byte: what a terminal sends for Enter and Backspace.
unfoldable pub serial_char : ℕ → ℕ
serial_char c = if c == 13 then 10 else if c == 0x7F then 8 else c

-- How many characters wait.
unfoldable pub waiting_count : Console → ℕ
waiting_count k = (k.input_head + input_buffer_size - k.input_tail) % input_buffer_size

-- Both positions are inside the ring.
abbrev pub InRing : Console → Type 0
InRing k = (k.input_head < input_buffer_size) × (k.input_tail < input_buffer_size)
