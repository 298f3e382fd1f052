-- ===== src/Server/Put.antt =====
-- The writer's puts in the order of the source.
use mi_remote_usb_bridge.Base.{ℕ, List, Bool}
use mi_remote_usb_bridge.Tlv.Writer.{
  Writer, put_u8, put_u16, put_u32, put_u64, put_bool, put_text, put_bytes,
}

-- The puts of a writer whose result is not looked at, in the order of the source.
infixl 5 ◌▸◌
abbrev pub ◌▸◌ : Writer → (Writer → Writer) → Writer
w ▸ f = f w

abbrev pub u8 : ℕ → ℕ → Writer → Writer
u8 tag v w = (put_u8 w tag v).0

abbrev pub u16 : ℕ → ℕ → Writer → Writer
u16 tag v w = (put_u16 w tag v).0

abbrev pub u32 : ℕ → ℕ → Writer → Writer
u32 tag v w = (put_u32 w tag v).0

abbrev pub u64 : ℕ → ℕ → Writer → Writer
u64 tag v w = (put_u64 w tag v).0

abbrev pub bool : ℕ → Bool → Writer → Writer
bool tag v w = (put_bool w tag v).0

abbrev pub text : ℕ → List ℕ → Writer → Writer
text tag v w = (put_text w tag v).0

abbrev pub bytes : ℕ → List ℕ → Writer → Writer
bytes tag v w = (put_bytes w tag v).0
