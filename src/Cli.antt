-- ===== src/Cli.antt =====
-- The cli package (cli/): printers for rows of results, and the prompts for credentials.
-- A text that is measured, cut or padded here is the list of its bytes, as in Go.
pub mod Printer
pub mod Format
pub mod Widths
pub mod TabPrinter
pub mod TemplatePrinter
pub mod Credentials
mod Tests
