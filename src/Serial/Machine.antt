-- ===== src/Serial/Machine.antt =====
-- What 9.serialport takes from the SPEDE headers (spede/machine/rs232.h, proc_reg.h, seg.h), which are
-- not part of the repository: register offsets and bits of the UART, and processor values.
use class_example.Prelude.{ℕ}

pub record Machine : Type 0 where
  -- Offsets of the UART's registers from its base address.
  pub reg_data : ℕ
  pub reg_ier : ℕ
  pub reg_iir : ℕ
  pub reg_cfcr : ℕ
  pub reg_mcr : ℕ
  pub reg_baudlo : ℕ
  pub reg_baudhi : ℕ
  -- Values of the interrupt identification register.
  pub iir_rxrdy : ℕ
  pub iir_txrdy : ℕ
  -- The words that `PortAllocHandler` writes, each an `or` of bits of the header.
  pub cfcr_dlab : ℕ
  pub cfcr_7e1 : ℕ
  pub mcr_dtr_rts_ienable : ℕ
  pub ier_erxrdy_etxrdy : ℕ
  -- `EF_DEFAULT_VALUE | EF_INTR`, and the segment registers.
  pub eflags_intr : ℕ
  pub get_cs : ℕ
  pub get_ds : ℕ
  pub get_es : ℕ
  pub get_fs : ℕ
  pub get_gs : ℕ
