-- ===== src/FirstFrame/Device/Format.antt =====
-- The format that first_frame makes buffers for (src/first_frame.c).
use twincam.Base.{◌*◌, ◌^◌, ◌≤◌, ◌<◌, ◌≡◌, arith}
use twincam.FirstFrame.State.{PixFormat}
use twincam.FirstFrame.Device.{at_least_bytes}

-- The lines and the image that a driver gives are kept where they are large enough, and enlarged otherwise:
-- a line has room for two bytes per pixel, and the image for as many lines as it is high, unless one of these
-- products has more than 32 bits. Both stay within 32 bits, and the width and the height as they were.
pub at_least_bytes-bounds :
    (f : PixFormat)
    → f.bytesperline < 2 ^ 32
    → f.sizeimage < 2 ^ 32
    → let f' = at_least_bytes f in
      (f'.width ≡ f.width)
      × (f'.height ≡ f.height)
      × (f'.bytesperline < 2 ^ 32)
      × (f'.sizeimage < 2 ^ 32)
      × (f.bytesperline ≤ f'.bytesperline)
      × (f.sizeimage ≤ f'.sizeimage)
      × (f.width * 2 < 2 ^ 32 → f.width * 2 ≤ f'.bytesperline)
      × (f'.bytesperline * f'.height < 2 ^ 32 → f'.bytesperline * f'.height ≤ f'.sizeimage)
unfolding at_least_bytes
at_least_bytes-bounds f line_small image_small = ground arith
