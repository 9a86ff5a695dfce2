-- ===== src/Epd.antt =====
-- src/epd200x200.c: the 200x200 e-paper display. `Frame` is the frame buffer, `Shapes` the lines
-- and rectangles, `Glyph` the two fonts, `Utf8` and `Text` the text layout, `Panel` the SPI side.
pub mod Frame
pub mod Shapes
pub mod Glyph
pub mod Utf8
pub mod Text
pub mod Panel
pub mod Show
